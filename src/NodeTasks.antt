-- ===== src/NodeTasks.antt =====
-- src/nodes/nodes_process.cpp, with the structures of nodes.h: what a task does to the files and
-- the server of a node. A string is the list of its character codes. The disk is a list of files
-- with their contents. Not under src, and so arguments here: what a command run by the shell
-- prints, whether a directory can be made or a file opened, and how an exchange on the socket ends.
pub mod Disk
pub mod Handlers
pub mod Dispatch
pub mod Files
pub mod Updates
pub mod Replies
pub mod Steps
pub mod Certificates
mod Tests
use hystack.Prelude.{
  ℕ, zero, suc, ◌+◌, ◌-◌, ◌/◌, ◌%◌, Bool, true, false, not, ◌&&◌, ◌||◌, Option, none, some, List,
  [], ◌∷◌, ◌++◌, ltb, ◌==◌, if◌then◌else◌, length,
}
use hystack.Prelude.Int.{ℤ, pos, negsuc}
use hystack.Base64.{codes, conv_base64_decode}

abbrev pub Text : Type 0
Text = List ℕ

-- `tag_nodes_nginx`
pub record Nginx : Type 0 where
  pub conf : Text
  pub sbin : Text
  pub cert : Text
  pub html : Text
  pub logs : Text
  pub lua : Text

-- What a task reads and changes: `tag_nodes_nginx_param`, `tag_nodes_return_packet`, the task's id
-- in `tag_nodes_pulls`, the disk, and what has left the node so far: the commands run, the requests
-- to the server's socket and the replies.
pub record Node : Type 0 where
  pub nginx : Nginx
  pub err : Text
  pub name : Text
  pub type : Text
  pub path : Text
  pub opt : Text
  pub content : Text
  pub error_id : ℤ
  pub request_id : Text
  pub task_id : Text
  pub message : Text
  pub disk : List (Text × Text)
  pub commands : List Text
  pub requests : List Text
  pub replies : List Text

-- What lies outside: the text printed by a command, after the ones run before it; whether `mkdir`
-- or the `access` behind it works; whether a file can be opened; the end of an exchange.
pub data Exchange : Type 0 where
  no_socket : Exchange
  unsent : Exchange
  broken : Exchange
  answered : Exchange

pub record Outside : Type 0 where
  pub prints : List Text → Text → Text
  pub has_directory : Text → Bool
  pub opens : Text → Bool
  pub exchange : Text → Exchange
  pub prefix : Text

-- A statement returns, throws a `nodes_exception` with its text and code, or is undefined.
pub data Outcome (A : Type 0) : Type 0 where
  returns : A → Outcome A
  throws : Text → ℤ → Outcome A
  faults : Outcome A

abbrev pub Act : Type 0 → Type 0
Act A = Node → Outcome A × Node

abbrev pub bind : {A B : Type 0} → Outcome A × Node → (A → Act B) → Outcome B × Node
bind (returns x, t) f = f x t
bind (throws what code, t) f = (throws what code, t)
bind (faults, t) f = (faults, t)

infixl 5 ◌>>=◌
abbrev pub ◌>>=◌ : {A B : Type 0} → Act A → (A → Act B) → Act B
(a >>= f) t = bind (a t) f

abbrev pub return : {A : Type 0} → A → Act A
return x t = (returns x, t)

-- `throw(nodes_exception(what, code))`; the constructor adds a line end.
abbrev pub throw : {A : Type 0} → Text → ℤ → Act A
throw what code t = (throws (what ++ 10 ∷ []) code, t)

abbrev pub change : (Node → Node) → Act Unit
change f t = (returns tt, f t)

abbrev pub get : Act Node
get t = (returns t, t)

abbrev pub ret_ok : ℤ
ret_ok = pos 0

abbrev pub ret_error : ℤ
ret_error = negsuc 0

-- `ret == RET_ERROR`
unfoldable pub is_error : ℤ → Bool
is_error (pos n) = false
is_error (negsuc zero) = true
is_error (negsuc (suc n)) = false

unfoldable pub same : Text → Text → Bool
same [] [] = true
same [] (d ∷ ds) = false
same (c ∷ cs) [] = false
same (c ∷ cs) (d ∷ ds) = (c == d) && same cs ds

unfoldable pub empty : Text → Bool
empty [] = true
empty (c ∷ cs) = false

-- The disk.
unfoldable pub find_file : Text → List (Text × Text) → Option Text
find_file file [] = none
find_file file ((f, content) ∷ disk) =
    let rest = find_file file disk in if same file f then some content else rest

unfoldable pub remove : Text → List (Text × Text) → List (Text × Text)
remove file [] = []
remove file ((f, content) ∷ disk) =
    let rest = remove file disk in if same file f then rest else (f, content) ∷ rest

unfoldable pub write : Text → Text → List (Text × Text) → List (Text × Text)
write file content disk = (file, content) ∷ remove file disk

unfoldable pub rename : Text → Text → List (Text × Text) → List (Text × Text)
rename old new disk = elim (find_file old disk) [
  | none ↦ disk
  | some content ↦ if same old new then disk else write new content (remove old disk)
]

-- `strstr`: the text from the first place on where the other stands.
pub starts : Text → Text → Bool
starts word [] = empty word
starts [] (c ∷ text) = true
starts (d ∷ word) (c ∷ text) = (c == d) && starts word text

unfoldable pub strstr : Text → Text → Option Text
strstr [] word = if empty word then some [] else none
strstr (c ∷ text) word =
    let rest = strstr text word in if starts word (c ∷ text) then some (c ∷ text) else rest

module _ (out : Outside) where
  -- `nodes_process_popen(c, param->err)` after `param->err.clear()`
  unfoldable pub popen : Text → Act Unit
  popen c =
      change (λ t. record t { err = out.prints t.commands c; commands = t.commands ++ c ∷ [] })

  -- 903 is `result_error::nginx`.
  unfoldable pub test_result : Text → ℤ
  test_result err = elim (strstr err (codes "syntax is ok")) [
    | none ↦ pos 903
    | some ptr2 ↦ elim (strstr ptr2 (codes "test is successful")) [
      | some _ ↦ pos 0
      | none ↦ elim (strstr ptr2 (codes "[alert]")) [ some _ ↦ pos 903 | none ↦ pos 0 ]
    ]
  ]

  unfoldable pub nodes_process_test_nginx : Act ℤ
  nodes_process_test_nginx = do
    t ← get
    _ ← popen (t.nginx.sbin ++ codes "nginx -t 2>&1")
    t ← get
    return (test_result t.err)

  -- `RET_OK` where the command prints nothing.
  unfoldable pub silent : Text → Act ℤ
  silent c = do _ ← popen c; t ← get; return (if empty t.err then ret_ok else ret_error)

  unfoldable pub nodes_process_check_nginx : Act ℤ
  nodes_process_check_nginx = silent (codes "ps aux |grep nginx |grep -v grep | awk '{print $2}'")

  unfoldable pub nodes_process_start_nginx : Act ℤ
  nodes_process_start_nginx = do
    t ← get
    _ ← popen (t.nginx.sbin ++ codes "/nginx")
    t ← get
    if empty t.err then return ret_ok else throw t.err (pos 903)

  unfoldable pub nodes_process_stop_nginx : Act ℤ
  nodes_process_stop_nginx = do t ← get; silent (t.nginx.sbin ++ codes "nginx -s stop")

  unfoldable pub nodes_process_reload_nginx : Act ℤ
  nodes_process_reload_nginx = do t ← get; silent (t.nginx.sbin ++ codes "nginx -s reload")
