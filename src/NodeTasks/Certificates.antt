-- ===== src/NodeTasks/Certificates.antt =====
-- What nodes_task_ssl_process does to the files of a certificate.
use hystack.Prelude.{ℕ, ◌+◌, ◌<◌, ◌≡◌, refl, ◌∙◌, false, List, [], ◌∷◌, ◌++◌, arith, length}
use hystack.Prelude.Int.{pos}
use hystack.Base64.{codes}
use hystack.NodeTasks.{Text, Node, Outside, returns, ret_ok, same, empty, find_file, remove}
use hystack.NodeTasks.Handlers.{
  Packet, set_file, set_content, ssl_operation, nodes_task_ssl_process, try, answer, set_reply,
  nodes_return_packet,
}
use hystack.NodeTasks.Files.{
  NoSlash, InDirectory, file_in, nodes_nginx_delete_file_lem, find-remove_other,
}
use hystack.NodeTasks.Replies.{replied}

same_after : (p a b : Text) → same (p ++ a) (p ++ b) ≡ same a b
unfolding same
same_after [] a b = refl
same_after (c ∷ p) a b = rw (same_after p a b) (ground arith)

abbrev pub pem_file : Text → Text → Text
pem_file dir name = file_in dir (name ++ codes ".pem")

abbrev pub key_file : Text → Text → Text
key_file dir name = file_in dir (name ++ codes ".key")

named_suffix : (name : Text) (c : ℕ) (suffix : Text) → empty (name ++ c ∷ suffix) ≡ false
unfolding empty
named_suffix [] c suffix = refl
named_suffix (d ∷ name) c suffix = refl

-- The disk without the two backups.
unfoldable pub without_baks : Text → Text → List (Text × Text) → List (Text × Text)
without_baks dir name disk =
    let key = file_in dir (name ++ codes ".key.bak") in
    remove key (remove key (remove (file_in dir (name ++ codes ".pem.bak")) disk))

module _ (out : Outside) (ssl : Packet) (t : Node) (dir part : Text)
    (e : ssl.operate ≡ codes "remove") (cert : t.nginx.cert ≡ dir ++ 47 ∷ part)
    (clean : NoSlash part) (short : length dir + length part < 78) where
  -- The node when the backup of the certificate is removed, and when that of the key is.
  at_pem : Node
  at_pem = record t {
    content = ssl.content;
    type = codes "pem";
    name = ssl.file_name ++ codes ".pem.bak";
    path = t.nginx.cert;
  }

  at_key : List (Text × Text) → Node
  at_key disk = record at_pem {
    disk = disk;
    type = codes "key";
    name = ssl.file_name ++ codes ".key.bak";
  }

  in_pem : InDirectory at_pem dir part
  unfolding at_pem
  in_pem = record {
    path_is = cert;
    no_slash = clean;
    short = short;
    named = named_suffix ssl.file_name 46 (codes "pem.bak");
  }

  in_key : (disk : List (Text × Text)) → InDirectory (at_key disk) dir part
  unfolding at_pem at_key
  in_key disk = record {
    path_is = cert;
    no_slash = clean;
    short = short;
    named = named_suffix ssl.file_name 46 (codes "key.bak");
  }

  ssl_remove_lem :
      nodes_task_ssl_process out ssl t
      ≡ (returns ret_ok, replied (pos 200) (at_key (without_baks dir ssl.file_name t.disk)))
  unfolding nodes_task_ssl_process ssl_operation set_file set_content try answer set_reply
      nodes_return_packet replied at_pem at_key without_baks same
  ssl_remove_lem =
      let pem = file_in dir (ssl.file_name ++ codes ".pem.bak") in
      let key = file_in dir (ssl.file_name ++ codes ".key.bak") in
      let disk = remove pem t.disk in
      rw
        (
          e,
          nodes_nginx_delete_file_lem in_pem out,
          nodes_nginx_delete_file_lem (in_key disk) out,
          nodes_nginx_delete_file_lem (in_key (remove key disk)) out,
        )
        refl

bak_apart :
    (dir name : Text) (disk : List (Text × Text)) (suffix : Text)
    → same suffix (codes ".pem.bak") ≡ false
    → same suffix (codes ".key.bak") ≡ false
    → find_file (file_in dir (name ++ suffix)) (without_baks dir name disk)
      ≡ find_file (file_in dir (name ++ suffix)) disk
unfolding without_baks
bak_apart dir name disk suffix p k =
    let file = file_in dir (name ++ suffix) in
    let pem = file_in dir (name ++ codes ".pem.bak") in
    let key = file_in dir (name ++ codes ".key.bak") in
    let apart : (other : Text)
        → same suffix other ≡ false
        → same file (file_in dir (name ++ other)) ≡ false =
      λ other ne.
        same_after (dir ++ 47 ∷ []) (name ++ suffix) (name ++ other)
        ∙ same_after name suffix other
        ∙ ne in
    find-remove_other key file (remove key (remove pem disk)) (apart (codes ".key.bak") k)
    ∙ find-remove_other key file (remove pem disk) (apart (codes ".key.bak") k)
    ∙ find-remove_other pem file disk (apart (codes ".pem.bak") p)

-- The task that removes a certificate takes its two backups off the disk. The certificate and its
-- key stay, and it is answered with 200.
pub ssl_remove-keeps :
    (out : Outside) (ssl : Packet) (t : Node) (dir part : Text)
    → ssl.operate ≡ codes "remove"
    → t.nginx.cert ≡ dir ++ 47 ∷ part
    → NoSlash part
    → length dir + length part < 78
    → ((nodes_task_ssl_process out ssl t).1.error_id ≡ pos 200)
      × (find_file (pem_file dir ssl.file_name) (nodes_task_ssl_process out ssl t).1.disk
          ≡ find_file (pem_file dir ssl.file_name) t.disk)
      × (find_file (key_file dir ssl.file_name) (nodes_task_ssl_process out ssl t).1.disk
          ≡ find_file (key_file dir ssl.file_name) t.disk)
unfolding replied same at_key without_baks
ssl_remove-keeps out ssl t dir part e cert clean short =
    rw (ssl_remove_lem out ssl t dir part e cert clean short) (
      refl,
      bak_apart dir ssl.file_name t.disk (codes ".pem") refl refl,
      bak_apart dir ssl.file_name t.disk (codes ".key") refl refl,
    )
