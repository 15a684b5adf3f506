-- ===== src/NodeTasks/Dispatch.antt =====
-- src/nodes/nodes_tasks.cpp: the handler of nginx's own files, and the dispatcher.
use hystack.Prelude.{ℕ, Option, none, some, [], ◌++◌, if◌then◌else◌}
use hystack.Prelude.Int.{ℤ, pos}
use hystack.Base64.{codes}
use hystack.NodeTasks.{
  Text, Node, Outside, Outcome, returns, throws, faults, Act, ◌>>=◌, return, throw, get, ret_ok,
  ret_error, is_error, same, empty, rename, nodes_process_test_nginx,
}
use hystack.NodeTasks.Disk.{edit, nodes_nginx_update_file, nodes_nginx_delete_file}
use hystack.NodeTasks.Handlers.{Packet, set_file, set_content, set_reply, nodes_return_packet, try}

module _ (out : Outside) where
  unfoldable pub nginx_main : Packet → Act Unit
  nginx_main conf = do
    t ← get
    _ ← set_content conf.content
    _ ← set_file (codes "conf") (codes "nginx_main.conf.bak") t.nginx.conf
    _ ← nodes_nginx_delete_file out
    _ ← set_file (codes "conf") (codes "nginx.conf") t.nginx.conf
    _ ← nodes_nginx_update_file out
    return tt

  -- The name stays that of the backup.
  unfoldable pub nginx_cache : Packet → Act Unit
  nginx_cache conf = do
    t ← get
    _ ← set_content conf.content
    _ ← set_file (codes "conf") (codes "cache.conf.bak") t.nginx.conf
    _ ← nodes_nginx_delete_file out
    _ ← nodes_nginx_update_file out
    return tt

  -- `file` is never assigned, so the file that is renamed is the one without a name.
  unfoldable pub test_conf : Text → Text → Act Unit
  test_conf path name = do
    ret ← nodes_process_test_nginx out
    t ← get
    if is_error ret
        then edit (rename [] (path ++ name ++ codes ".conf")) >>= (λ _. throw t.err (pos 900))
        else return tt

  unfoldable pub update_or_delete : Packet → Text → Text → Act ℤ
  update_or_delete conf path name t =
      if empty conf.content
      then (do
        _ ← set_file (codes "conf") (name ++ codes ".conf.bak") t.nginx.conf
        nodes_nginx_delete_file out)
          t
      else (do
        _ ← set_file (codes "conf") (name ++ codes ".conf") path
        nodes_nginx_update_file out)
          t

  unfoldable pub domain_conf : Packet → Text → Text → Act Unit
  domain_conf conf path name = do
    _ ← set_content conf.content
    _ ← set_file (codes "conf") (name ++ codes ".conf.bak") path
    _ ← nodes_nginx_delete_file out
    _ ← update_or_delete conf path name
    test_conf path name

  unfoldable pub nginx_domain : Packet → Text → Act Unit
  nginx_domain conf name t =
      let path = t.nginx.conf ++ codes "/" ++ conf.file_path ++ codes "/" in
      let logs = t.nginx.logs ++ codes "/" ++ conf.file_path ++ codes "/" ++ name ++ codes "/" in
      if out.has_directory logs
      then domain_conf conf path name t
      else throw (codes "mkdir failed.") (pos 900) t

  -- `nginx_main` is renamed to `nginx` before the second test, so it goes on to the last branch.
  unfoldable pub nginx_operation : Packet → Act Unit
  nginx_operation conf t =
      if same conf.file_name (codes "nginx_main")
      then (do _ ← nginx_main conf; nginx_domain conf (codes "nginx")) t
      else if same conf.file_name (codes "cache")
      then nginx_cache conf t
      else nginx_domain conf conf.file_name t

  unfoldable pub nodes_task_nginx_process : Packet → Act ℤ
  nodes_task_nginx_process conf = try (nginx_operation conf)

-- What the library makes of a task's text: the header, and the item `data` printed again, where the
-- text is JSON and has one.
pub record Request : Type 0 where
  pub function_id : ℕ
  pub request_id : Text
  pub json : Option (Option Text)

unfoldable pub failed_handler : Act ℤ
failed_handler = do
  _ ← set_reply (pos 901) (codes "json error")
  _ ← nodes_return_packet
  return ret_error

-- A handler throws nothing that it does not catch, but the source is ready for it.
unfoldable pub after_handler : Outcome ℤ × Node → Outcome ℤ × Node
after_handler (returns _, t) = (returns ret_ok, t)
after_handler (throws what code, t) = failed_handler t
after_handler (faults, t) = (faults, t)

unfoldable pub handle : (ℕ → Option (Text → Act ℤ)) → ℕ → Text → Act ℤ
handle proc function_id payload t = elim (proc function_id) [
  | none ↦ (returns ret_ok, record t { request_id = t.task_id })
  | some ptr_proc ↦ after_handler (ptr_proc payload (record t { request_id = t.task_id }))
]

unfoldable pub nodes_task_dispatch : (ℕ → Option (Text → Act ℤ)) → Request → Act ℤ
nodes_task_dispatch proc request t =
    if empty request.request_id then failed_handler t else elim request.json [
      | none ↦ failed_handler t
      | some none ↦ failed_handler t
      | some (some payload) ↦ handle proc request.function_id payload t
    ]
