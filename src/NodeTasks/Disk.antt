-- ===== src/NodeTasks/Disk.antt =====
-- src/nodes/nodes_process.cpp from nodes_nginx_current_path on: the operations on files, and the
-- request to the server's socket.
use hystack.Prelude.{
  ℕ, not, ◌||◌, Option, none, some, List, [], ◌∷◌, ◌++◌, ltb, leb, ◌==◌, if◌then◌else◌, length,
}
use hystack.Prelude.Int.{ℤ, pos}
use hystack.Base64.{codes, conv_base64_decode}
use hystack.NodeTasks.{
  Text, Node, Outside, Exchange, no_socket, unsent, broken, answered, returns, faults, Act, ◌>>=◌,
  return, throw, change, get, ret_ok, ret_error, same, empty, find_file, remove, write, rename,
}

-- One character of the path: `str` holds the part read since the last `/`, `s` the path up to that.
-- `none` is a write behind the 80 bytes of `str`.
unfoldable pub path_step : ℕ → Option (Text × Text) → Option (Text × Text)
path_step c none = none
path_step c (some (str, s)) =
    if not (c == 47)
    then some (str ++ c ∷ [], s)
    else if ltb 78 (length str)
    then none
    else some ([], s ++ str ++ 47 ∷ [])

unfoldable pub copy_path : Option (Text × Text) → Text → Option (Text × Text)
copy_path state [] = state
copy_path state (c ∷ path) = copy_path (path_step c state) path

-- The path up to its last `/`, in a buffer of `len` bytes that was all null; the buffer stays so
-- if the path is longer. `none` is a write behind a buffer.
unfoldable pub nodes_nginx_current_path : ℕ → Text → Option Text
nodes_nginx_current_path len path =
    if ltb len (length path) then some [] else elim (copy_path (some ([], [])) path) [
      | none ↦ none
      | some (str, s) ↦ if ltb 80 (length str) || leb len (length s) then none else some s
    ]

-- What the rest of the function does with a result that may be a fault.
abbrev pub need : {A : Type 0} → Option A → Act A
need none t = (faults, t)
need (some x) t = (returns x, t)

abbrev pub edit : (List (Text × Text) → List (Text × Text)) → Act Unit
edit f = change (λ t. record t { disk = f t.disk })

-- Up to the first null character.
unfoldable pub c_string : Text → Text
c_string [] = []
c_string (c ∷ text) = let rest = c_string text in if c == 0 then [] else c ∷ rest

-- A buffer that was all null before the decoding.
abbrev pub or_empty : Option Text → Text
or_empty none = []
or_empty (some text) = text

-- The file that a task names, by its path and its name.
unfoldable pub task_file : Act Text
task_file = do t ← get; p ← need (nodes_nginx_current_path 120 t.path); return (p ++ t.name)

unfoldable pub nodes_nginx_backup_file : Act Text
nodes_nginx_backup_file = do
  old ← task_file
  _ ← edit (rename old (old ++ codes ".bak"))
  return old

module _ (out : Outside) where
  -- `msg` has 120 bytes.
  unfoldable pub open_failed : Text → Act ℤ
  open_failed old =
      if leb 120 (length (codes "open file failed. " ++ old))
      then need none
      else throw (codes "open file failed. " ++ old) (pos 900)

  -- The file is open for writing. The result of the decoding is not looked at: where the content is
  -- no base64 the buffer stays null, and the file is emptied.
  unfoldable pub write_content : Text → Act ℤ
  write_content old = do
    t ← get
    let text = c_string (or_empty (conv_base64_decode t.content))
    _ ← edit (write old text)
    return ret_ok

  unfoldable pub nodes_nginx_update_file : Act ℤ
  nodes_nginx_update_file t =
      if empty t.content
      then throw (codes "centent is null.") (pos 902) t
      else (do
        old ← nodes_nginx_backup_file
        if out.opens old then write_content old else open_failed old)
          t

  -- The test that `nodes_nginx_delete_file` and `nodes_nginx_remove_file` begin with.
  unfoldable pub with_name : Act ℤ → Act ℤ
  with_name act t =
      if empty t.name || empty t.path then throw (codes "nginx-param error.") (pos 903) t else act t

  unfoldable pub nodes_nginx_delete_file : Act ℤ
  nodes_nginx_delete_file = with_name (do file ← task_file; _ ← edit (remove file); return ret_ok)

  -- The path is not read into `p` here.
  unfoldable pub nodes_nginx_remove_file : Act ℤ
  nodes_nginx_remove_file = with_name (do t ← get; _ ← edit (remove t.name); return ret_ok)

  unfoldable pub domain_file : Node → Text
  domain_file t =
      t.nginx.conf
      ++ (if same t.path (codes "domain") then codes "/domain/" else codes "/stream/")
      ++ t.name
      ++ codes ".conf"

  -- `access` is asked whether the file is there.
  unfoldable pub nodes_nginx_remove_domain : Act ℤ
  nodes_nginx_remove_domain t = elim (find_file (domain_file t) t.disk) [
    | none ↦ (returns ret_error, t)
    | some _ ↦
        let new_path = domain_file t ++ codes ".bak" in
        (do _ ← edit (rename new_path new_path); return ret_ok) t
  ]

  unfoldable pub nodes_nginx_update_domain : Act ℤ
  nodes_nginx_update_domain = return ret_ok

  -- What is sent is `pack`, with its `%s` as they stand: the text made of it, `buff`, is not used.
  unfoldable pub defense_pack : Text
  defense_pack =
      codes "GET /nginx-defense?param=%s&opt=%s HTTP/1.1\r\n"
      ++ codes "User-Agent: curl/7.29.0\r\n"
      ++ codes "Host: localhost\r\n"
      ++ codes "Accept: */* \r\n"
      ++ codes "Content-Type: application/x-www-form-urlencoded\r\n"
      ++ codes "\r\n"

  -- What the end of the exchange makes of it: the request has left the node in the last two cases.
  unfoldable pub after_exchange : Exchange → Act ℤ
  after_exchange no_socket t = (returns ret_error, t)
  after_exchange unsent t = (returns (pos 904), t)
  after_exchange broken t =
      (returns ret_error, record t { requests = t.requests ++ defense_pack ∷ [] })
  after_exchange answered t =
      (returns (pos 0), record t { requests = t.requests ++ defense_pack ∷ [] })

  unfoldable pub nodes_nginx_unix_socket : Act ℤ
  nodes_nginx_unix_socket = after_exchange (out.exchange defense_pack)

  -- The sleep of a second is left out.
  unfoldable pub nodes_cmdline_remove_nodes : Act ℤ
  nodes_cmdline_remove_nodes = do
    t ← get
    let c = out.prefix ++ codes "/sbin/Asnode -i stopnodes"
    _ ← change (λ t. record t { commands = t.commands ++ c ∷ [] })
    return (if empty (out.prints t.commands c) then ret_ok else ret_error)
