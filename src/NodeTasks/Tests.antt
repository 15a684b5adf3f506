-- ===== src/NodeTasks/Tests.antt =====
-- A node with some files, and the theorems at it.
use hystack.Prelude.{
  ◌+◌, ◌≡◌, refl, true, false, none, some, List, [], ◌∷◌, inr, arith, length, if◌then◌else◌,
}
use hystack.Prelude.Int.{pos}
use hystack.Base64.{
  codes, conv_base64_decode, template_base64_decode, digits_of, decode_groups, decode_basis,
}
use hystack.NodeTasks.{
  Text, Nginx, Node, Outside, answered, returns, Act, throw, ret_ok, same, empty, find_file, rename,
  write, remove,
}
use hystack.NodeTasks.Disk.{
  c_string, nodes_nginx_current_path, nodes_nginx_backup_file, task_file, write_content,
  nodes_nginx_update_file, nodes_nginx_delete_file, domain_file, path_step, copy_path,
}
use hystack.NodeTasks.Handlers.{Packet, packet_text, to_string, digits, try, nodes_task_ssl_process}
use hystack.NodeTasks.Dispatch.{Request, nodes_task_dispatch, test_conf}
use hystack.NodeTasks.Files.{InDirectory, file_in, nodes_nginx_delete_file-removes}
use hystack.NodeTasks.Updates.{bak, moved, nodes_nginx_update_file-replaces}
use hystack.NodeTasks.Replies.{ends, nodes_task_dispatch-replies}
use hystack.NodeTasks.Steps.{looks_for, test_conf-passes}
use hystack.NodeTasks.Certificates.{pem_file, key_file, ssl_remove-keeps}

abbrev server : Nginx
server = record {
  conf = codes "/n/conf";
  sbin = codes "/n/sbin/";
  cert = codes "/n/cert/";
  html = codes "/n/html/";
  logs = codes "/n/logs";
  lua = codes "/n/lua/";
}

-- The server runs, and everything else works.
abbrev outside : Outside
outside = record {
  prints = λ ran c. if same c looks_for then codes "123" else [];
  has_directory = λ path. true;
  opens = λ file. true;
  exchange = λ pack. answered;
  prefix = codes "/a";
}

abbrev node : Node
node = record {
  nginx = server;
  err = [];
  name = codes "a.pem";
  type = codes "pem";
  path = codes "/n/cert/";
  opt = [];
  content = codes "YWJj";
  error_id = pos 0;
  request_id = codes "7";
  task_id = codes "8";
  message = [];
  disk = (codes "/n/cert/a.pem", codes "old") ∷ (codes "/n/cert/b.pem", codes "b") ∷ [];
  commands = [];
  requests = [];
  replies = [];
}

abbrev packet : Text → Packet
packet operate = record {
  file_name = codes "a";
  file_path = [];
  operate = operate;
  extra = codes "YWJj";
  content = codes "YWJj";
}

reply_text :
    packet_text (codes "7") (pos 904)
    ≡ codes "{\"requestid\":\"7\",\"code\":\"904\",\"type\":\"base64\",\"msg\":\"\"}"
unfolding packet_text to_string digits
reply_text = refl

-- The directory is lost of a path that does not end with a `/`.
conf_path : nodes_nginx_current_path 120 (codes "/n/conf") ≡ some (codes "/n/")
unfolding nodes_nginx_current_path copy_path path_step decode_basis
conf_path = refl

decoded : conv_base64_decode (codes "YWJj") ≡ some (codes "abc")
unfolding conv_base64_decode template_base64_decode digits_of decode_groups decode_basis
decoded = refl

in_cert : InDirectory node (codes "/n/cert") []
unfolding empty
in_cert = record { path_is = refl; no_slash = tt; short = omega arith; named = refl }

abbrev cert_a : Text
cert_a = file_in (codes "/n/cert") (codes "a.pem")

abbrev cert_b : Text
cert_b = codes "/n/cert/b.pem"

b-ne-a : same cert_b cert_a ≡ false
unfolding same
b-ne-a = refl

b-ne-bak : same cert_b (bak cert_a) ≡ false
unfolding same
b-ne-bak = refl

some_content : empty node.content ≡ false
unfolding empty
some_content = refl

nodes_nginx_delete_file-removes_example :
    (disk : List (Text × Text)) × (nodes_nginx_delete_file outside node
      ≡ (returns ret_ok, record node { disk = disk }))
    × (find_file cert_a disk ≡ none)
    × (find_file cert_b disk ≡ find_file cert_b node.disk)
nodes_nginx_delete_file-removes_example =
    nodes_nginx_delete_file-removes in_cert outside cert_b b-ne-a

nodes_nginx_update_file-replaces_example :
    (disk : List (Text × Text)) × (nodes_nginx_update_file outside node
      ≡ (returns ret_ok, record node { disk = disk }))
    × (find_file cert_a disk
        ≡ some (elim (conv_base64_decode node.content) [ none ↦ [] | some text ↦ c_string text ]))
    × (find_file (bak cert_a) disk
        ≡ moved (find_file cert_a node.disk) (find_file (bak cert_a) node.disk))
    × (find_file cert_b disk ≡ find_file cert_b node.disk)
nodes_nginx_update_file-replaces_example =
    nodes_nginx_update_file-replaces in_cert outside cert_b some_content refl b-ne-a b-ne-bak

-- What is no base64 empties the file.
emptied :
    find_file cert_a (nodes_nginx_update_file outside (record node { content = codes "?" })).1.disk
    ≡ some []
unfolding nodes_nginx_update_file nodes_nginx_backup_file write_content task_file conv_base64_decode
    template_base64_decode digits_of c_string rename write remove find_file same empty
    nodes_nginx_current_path copy_path path_step decode_basis
emptied = refl

abbrev thrower : Act Unit
thrower = throw (codes "no") (pos 900)

abbrev read : Request
read = record { function_id = 3; request_id = codes "7"; json = some (some []) }

has_id : empty read.request_id ≡ false
unfolding empty
has_id = refl

thrower_ends : (u : Node) → ends (thrower u).0 ≡ true
unfolding ends
thrower_ends u = refl

nodes_task_dispatch-replies_example :
    length (nodes_task_dispatch (λ n. some (λ text. try thrower)) read node).1.replies
    ≡ length node.replies + 1
nodes_task_dispatch-replies_example =
    nodes_task_dispatch-replies (λ n. some (λ text. try thrower)) read [] (λ text. thrower) node
      has_id refl (λ u. refl) thrower_ends (inr refl)

test_conf-passes_example : (test_conf outside (codes "/n/") (codes "a") node).0 ≡ returns tt
test_conf-passes_example = test_conf-passes outside (codes "/n/") (codes "a") node

ssl_remove-keeps_example :
    ((nodes_task_ssl_process outside (packet (codes "remove")) node).1.error_id ≡ pos 200)
    × (find_file
          (pem_file (codes "/n/cert") (codes "a"))
          (nodes_task_ssl_process outside (packet (codes "remove")) node).1.disk
        ≡ find_file (pem_file (codes "/n/cert") (codes "a")) node.disk)
    × (find_file
          (key_file (codes "/n/cert") (codes "a"))
          (nodes_task_ssl_process outside (packet (codes "remove")) node).1.disk
        ≡ find_file (key_file (codes "/n/cert") (codes "a")) node.disk)
ssl_remove-keeps_example =
    ssl_remove-keeps outside (packet (codes "remove")) node (codes "/n/cert") [] refl refl tt
      (omega arith)

-- The file of the domain is on the disk.
abbrev with_domain : Node
with_domain = record node {
  path = codes "domain";
  disk = (codes "/n/conf/domain/a.pem.conf", codes "server") ∷ [];
}

domain_there : find_file (domain_file outside with_domain) with_domain.disk ≡ some (codes "server")
unfolding find_file domain_file same
domain_there = refl
