-- ===== src/NodeTasks/Updates.antt =====
-- nodes_nginx_update_file keeps the old content beside the new one; nodes_nginx_remove_domain
-- removes nothing.
use hystack.Prelude.{
  ℕ, ◌≡◌, refl, ap, ◌∙◌, true, false, Option, none, some, List, [], ◌∷◌, ◌++◌, arith, inl, inr,
  Option-cases,
}
use hystack.Base64.{codes, conv_base64_decode}
use hystack.NodeTasks.{
  Text, Node, Outside, returns, ret_ok, same, empty, find_file, remove, write, rename,
}
use hystack.NodeTasks.Disk.{
  c_string, or_empty, nodes_nginx_backup_file, write_content, nodes_nginx_update_file,
}
use hystack.NodeTasks.Files.{
  find-remove_other, find-write, find-write_other, InDirectory, file_in, task_file_lem,
}

pub same_longer : (a : Text) (c : ℕ) (b : Text) → same a (a ++ c ∷ b) ≡ false
unfolding same
same_longer [] c b = refl
same_longer (d ∷ a) c b = rw (same_longer a c b) (ground arith)

pub same_shorter : (a : Text) (c : ℕ) (b : Text) → same (a ++ c ∷ b) a ≡ false
unfolding same
same_shorter [] c b = refl
same_shorter (d ∷ a) c b = rw (same_shorter a c b) (ground arith)

-- The name of the backup.
abbrev pub bak : Text → Text
bak file = file ++ codes ".bak"

-- What was under the old name, or else under the new one.
pub moved : Option Text → Option Text → Option Text
moved none new = new
moved (some content) new = some content

find-rename :
    (file : Text) (disk : List (Text × Text))
    → find_file (bak file) (rename file (bak file) disk)
      ≡ moved (find_file file disk) (find_file (bak file) disk)
unfolding rename moved
find-rename file disk = elim (Option-cases (find_file file disk)) [
  | inl e ↦ rw (rename, e) refl
  | inr (content, e) ↦
      rw (rename, e, same_longer file 46 (codes "bak"))
        (find-write (bak file) content (remove file disk))
]

find-rename_other :
    (file other : Text) (disk : List (Text × Text))
    → same other file ≡ false
    → same other (bak file) ≡ false
    → find_file other (rename file (bak file) disk) ≡ find_file other disk
unfolding rename
find-rename_other file other disk p q = elim (Option-cases (find_file file disk)) [
  | inl e ↦ rw (rename, e) refl
  | inr (content, e) ↦
      rw (rename, e, same_longer file 46 (codes "bak"))
        (find-write_other (bak file) other content (remove file disk) q
          ∙ find-remove_other file other disk p)
]

module _ {t : Node} {dir part : Text} (d : InDirectory t dir part) where
  -- Let the path of the task hold a slash and have less than 79 characters, and let its name and its
  -- content not be empty. An update of a file that can be opened leaves the decoded content, up to
  -- its first null character, in the file, and nothing in it where the content is no base64; what was
  -- in the file before is in its backup, and the other files and all else stay as they were.
  pub nodes_nginx_update_file-replaces :
      (out : Outside) (other : Text)
      → empty t.content ≡ false
      → out.opens (file_in dir t.name) ≡ true
      → same other (file_in dir t.name) ≡ false
      → same other (bak (file_in dir t.name)) ≡ false
      → (disk : List (Text × Text)) × (nodes_nginx_update_file out t
          ≡ (returns ret_ok, record t { disk = disk }))
        × (find_file (file_in dir t.name) disk
            ≡ some (elim (conv_base64_decode t.content) [ none ↦ [] | some text ↦ c_string text ]))
        × (find_file (bak (file_in dir t.name)) disk
            ≡ moved
                (find_file (file_in dir t.name) t.disk)
                (find_file (bak (file_in dir t.name)) t.disk))
        × (find_file other disk ≡ find_file other t.disk)
  unfolding nodes_nginx_update_file nodes_nginx_backup_file write_content c_string
  nodes_nginx_update_file-replaces out other some_content opens p q =
      let file = file_in dir t.name in
      let text = c_string (or_empty (conv_base64_decode t.content)) in
      let backed = rename file (bak file) t.disk in
      (
        write file text backed,
        rw (nodes_nginx_update_file, some_content, task_file_lem d, opens) refl,
        find-write file text backed ∙ ap some (decoded (conv_base64_decode t.content)),
        find-write_other file (bak file) text backed (same_shorter file 46 (codes "bak"))
            ∙ find-rename file t.disk,
        find-write_other file other text backed p ∙ find-rename_other file other t.disk p q,
      )
    where
      decoded :
          (content : Option Text)
          → c_string (or_empty content) ≡ elim content [ none ↦ [] | some text ↦ c_string text ]
      decoded none = refl
      decoded (some text) = refl
