-- ===== src/NodeTasks/Handlers.antt =====
-- src/nodes/nodes_tasks.cpp: the handlers of the tasks, their replies and the dispatcher. The JSON
-- of a task is read by a library, so a handler takes the packet that `unpacket` fills in. Left out:
-- nodes_task_cache_process (a walk over a directory) and the socket that a reply is sent on.
use hystack.Prelude.{ℕ, zero, suc, ◌+◌, ◌/◌, ◌%◌, ◌||◌, [], ◌∷◌, ◌++◌, ltb, if◌then◌else◌}
use hystack.Prelude.Int.{ℤ, pos, negsuc}
use hystack.Base64.{codes}
use hystack.NodeTasks.{
  Text, Node, Outside, Outcome, returns, throws, faults, Act, ◌>>=◌, return, throw, change, get,
  ret_ok, ret_error, is_error, same, nodes_process_check_nginx, nodes_process_start_nginx,
  nodes_process_stop_nginx, nodes_process_reload_nginx,
}
use hystack.NodeTasks.Disk.{
  nodes_nginx_update_file, nodes_nginx_delete_file, nodes_nginx_update_domain,
  nodes_nginx_unix_socket, nodes_cmdline_remove_nodes,
}

-- `tag_packet_data`, the fields that the handlers read.
pub record Packet : Type 0 where
  pub file_name : Text
  pub file_path : Text
  pub operate : Text
  pub extra : Text
  pub content : Text

-- `std::to_string`, with as many turns as the number.
unfoldable pub digits : ℕ → ℕ → Text
digits zero n = []
digits (suc turns) n =
    let high = digits turns (n / 10) in
    if ltb n 10 then (48 + n) ∷ [] else high ++ (48 + n % 10) ∷ []

unfoldable pub to_string : ℤ → Text
to_string (pos n) = digits (suc n) n
to_string (negsuc n) = 45 ∷ digits (suc (suc n)) (suc n)

-- `packet->buff`. The message in it is the encoding of `msg`, which is empty.
unfoldable pub packet_text : Text → ℤ → Text
packet_text request_id error_id =
    codes "{\"requestid\":\""
    ++ request_id
    ++ codes "\",\"code\":\""
    ++ to_string error_id
    ++ codes "\",\"type\":\"base64\",\"msg\":\""
    ++ codes "\"}"

-- What it returns, the success of the sending, is read nowhere.
unfoldable pub nodes_return_packet : Act Unit
nodes_return_packet = change (λ t. record t {
  message = [];
  replies = t.replies ++ packet_text t.request_id t.error_id ∷ [];
})

unfoldable pub set_reply : ℤ → Text → Act Unit
set_reply code text = change (λ t. record t { error_id = code; message = text })

-- The frame of every handler: `try`, `catch` and what stands behind them.
unfoldable pub answer : Outcome Unit × Node → Outcome ℤ × Node
answer (returns _, t) =
    (do _ ← set_reply (pos 200) (codes "successful!"); _ ← nodes_return_packet; return ret_ok) t
answer (throws what code, t) =
    (do _ ← set_reply code what; _ ← nodes_return_packet; return ret_error) t
answer (faults, t) = (faults, t)

unfoldable pub try : Act Unit → Act ℤ
try body t = answer (body t)

-- The file that the next operation is about.
unfoldable pub set_file : Text → Text → Text → Act Unit
set_file type name path = change (λ t. record t { type = type; name = name; path = path })

unfoldable pub set_content : Text → Act Unit
set_content content = change (λ t. record t { content = content })

-- `if (ret == RET_ERROR) throw(nodes_exception(what, 900))`
unfoldable pub throw_on : Text → ℤ → Act Unit
throw_on what ret = if is_error ret then throw what (pos 900) else return tt

unfoldable pub throw_err : ℤ → Act Unit
throw_err ret = do t ← get; throw_on t.err ret

module _ (out : Outside) where
  unfoldable pub lua_operation : Packet → Act ℤ
  lua_operation lua = do
    t ← get
    let file = set_file (codes "json") (lua.file_name ++ codes ".json") t.nginx.lua
    if same lua.operate (codes "update")
        then file >>= (λ _. nodes_nginx_update_file out)
        else if same lua.operate (codes "remove")
        then file >>= (λ _. nodes_nginx_delete_file out)
        else return (pos 0)

  unfoldable pub nodes_task_lua_process : Packet → Act ℤ
  nodes_task_lua_process lua = try (do
    t ← get
    _ ← set_content lua.content
    _ ← set_file (codes "json") (lua.file_name ++ codes ".json.bak") t.nginx.lua
    _ ← nodes_nginx_delete_file out
    ret ← lua_operation lua
    throw_on (codes "failed") ret)

  unfoldable pub errpage_operation : Packet → Act ℤ
  errpage_operation errpage t =
      if same errpage.operate (codes "update")
      then nodes_nginx_update_file out (record t { name = errpage.file_name ++ codes ".html" })
      else if same errpage.operate (codes "remove")
      then nodes_nginx_delete_file out (record t { name = errpage.file_name ++ codes ".html.bak" })
      else (returns (pos 0), t)

  unfoldable pub nodes_task_errpage_process : Packet → Act ℤ
  nodes_task_errpage_process errpage = try (do
    t ← get
    _ ← set_content errpage.content
    _ ← set_file (codes "html") (errpage.file_name ++ codes ".html.bak") t.nginx.html
    _ ← nodes_nginx_delete_file out
    _ ← errpage_operation errpage
    return tt)

  unfoldable pub ssl_update : Packet → Act ℤ
  ssl_update ssl = do
    t ← get
    _ ← set_content ssl.content
    _ ← set_file (codes "pem") (ssl.file_name ++ codes ".pem") t.nginx.cert
    _ ← nodes_nginx_update_file out
    _ ← set_content ssl.extra
    _ ← set_file (codes "key") (ssl.file_name ++ codes ".key") t.nginx.cert
    nodes_nginx_update_file out

  unfoldable pub ssl_operation : Packet → Act ℤ
  ssl_operation ssl t =
      if same ssl.operate (codes "update") || same ssl.operate (codes "add")
      then ssl_update ssl t
      else if same ssl.operate (codes "remove")
      then nodes_nginx_delete_file out t
      else (returns (pos 0), t)

  unfoldable pub nodes_task_ssl_process : Packet → Act ℤ
  nodes_task_ssl_process ssl = try (do
    t ← get
    _ ← set_content ssl.content
    _ ← set_file (codes "pem") (ssl.file_name ++ codes ".pem.bak") t.nginx.cert
    _ ← nodes_nginx_delete_file out
    _ ← set_file (codes "key") (ssl.file_name ++ codes ".key.bak") t.nginx.cert
    _ ← nodes_nginx_delete_file out
    _ ← ssl_operation ssl
    return tt)

  unfoldable pub start_nginx : Act Unit
  start_nginx = do
    ret ← nodes_process_check_nginx out
    ret ← if is_error ret then nodes_process_reload_nginx out else nodes_process_start_nginx out
    throw_err ret

  unfoldable pub stop_nginx : Act Unit
  stop_nginx = do ret ← nodes_process_stop_nginx out; throw_err ret

  unfoldable pub check_nginx : Act Unit
  check_nginx = do ret ← nodes_process_check_nginx out; throw_err ret

  unfoldable pub remove_node : Act Unit
  remove_node = do _ ← stop_nginx; ret ← nodes_cmdline_remove_nodes out; throw_err ret

  unfoldable pub update_node : Act Unit
  update_node = do ret ← nodes_nginx_update_domain out; _ ← throw_err ret; check_nginx

  unfoldable pub step_operation : Text → Act Unit
  step_operation operate =
      if same operate (codes "start")
      then start_nginx
      else if same operate (codes "stop")
      then stop_nginx
      else if same operate (codes "check")
      then check_nginx
      else if same operate (codes "remove")
      then remove_node
      else if same operate (codes "update")
      then update_node
      else return tt

  unfoldable pub nodes_task_step_process : Packet → Act ℤ
  nodes_task_step_process step = try (step_operation step.operate)

  unfoldable pub nodes_task_redis_process : Packet → Act ℤ
  nodes_task_redis_process redis = try (return tt)

  unfoldable pub ask_server : Text → Packet → Act ℤ
  ask_server opt defense = do
    t ← get
    _ ← change (λ t. record t { opt = opt; path = t.nginx.conf; content = defense.content })
    nodes_nginx_unix_socket out

  unfoldable pub defense_operation : Packet → Act ℤ
  defense_operation defense =
      if same defense.operate (codes "cc_allow_pass_temporary")
      then ask_server (codes "cc_allow_pass_temporary") defense
      else if same defense.operate (codes "cc_add_to_blacklist")
      then ask_server (codes "cc_add_to_blacklist") defense
      else return (pos 0)

  unfoldable pub nodes_task_defense_process : Packet → Act ℤ
  nodes_task_defense_process defense =
      try (do ret ← defense_operation defense; throw_on (codes "failed") ret)
