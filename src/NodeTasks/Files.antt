-- ===== src/NodeTasks/Files.antt =====
-- What the operations of nodes_process.cpp do to the disk.
use hystack.Prelude.{
  ◌+◌, ◌<◌, ◌≡◌, ◌≢◌, refl, sym, ap, ◌∙◌, true, false, ◌||◌, Option, none, some, List, [], ◌∷◌,
  ◌++◌, ltb, leb, ◌==◌, length, arith, All, append-nil, append_assoc, length-append, Bool-cases,
  inl, inr, ==_iff,
}
use hystack.NodeTasks.{Text, Node, Outside, returns, ret_ok, same, empty, find_file, remove, write}
use hystack.NodeTasks.Disk.{
  path_step, copy_path, nodes_nginx_current_path, task_file, with_name, nodes_nginx_delete_file,
}

pub same_refl : (a : Text) → same a a ≡ true
unfolding same
same_refl [] = refl
same_refl (c ∷ a) = rw (same_refl a) (ground arith)

pub same_eq : (a b : Text) → same a b ≡ true → a ≡ b
unfolding same
same_eq [] [] e = refl
same_eq [] (d ∷ b) e = absurd (ground (arith, e))
same_eq (c ∷ a) [] e = absurd (ground (arith, e))
same_eq (c ∷ a) (d ∷ b) e =
    let head : c ≡ d = ground (arith, e) in
    let tail : same a b ≡ true = ground (arith, e) in rw (head, same_eq a b tail) refl

pub find-remove :
    (file : Text) (disk : List (Text × Text)) → find_file file (remove file disk) ≡ none
unfolding find_file remove
find-remove file [] = refl
find-remove file ((f, content) ∷ disk) = elim (Bool-cases (same file f)) [
  | inl e ↦ rw (remove, e) (find-remove file disk)
  | inr e ↦ rw (remove, e, find_file, e) (find-remove file disk)
]

pub find-remove_other :
    (file other : Text) (disk : List (Text × Text))
    → same other file ≡ false
    → find_file other (remove file disk) ≡ find_file other disk
unfolding find_file remove
find-remove_other file other [] ne = refl
find-remove_other file other ((f, content) ∷ disk) ne = elim (Bool-cases (same file f)) [
  | inl e ↦
      let no : same other f ≡ false = ap (same other) (sym (same_eq file f e)) ∙ ne in
      rw (remove, e, no) (find-remove_other file other disk ne)
  | inr e ↦ rw (remove, e, find-remove_other file other disk ne) refl
]

pub find-write :
    (file content : Text) (disk : List (Text × Text))
    → find_file file (write file content disk) ≡ some content
unfolding find_file write
find-write file content disk = rw (same_refl file) refl

pub find-write_other :
    (file other content : Text) (disk : List (Text × Text))
    → same other file ≡ false
    → find_file other (write file content disk) ≡ find_file other disk
unfolding find_file write
find-write_other file other content disk ne =
    rw (find_file, ne) (find-remove_other file other disk ne)

-- A part of a path without a `/`.
abbrev pub NoSlash : Text → Type 0
NoSlash text = All (λ c. c ≢ 47) text

copy_path_append :
    (state : Option (Text × Text)) (a b : Text)
    → copy_path state (a ++ b) ≡ copy_path (copy_path state a) b
unfolding copy_path
copy_path_append state [] b = refl
copy_path_append state (c ∷ a) b = copy_path_append (path_step c state) a b

copy_path_part :
    (str s part : Text) → NoSlash part → copy_path (some (str, s)) part ≡ some (str ++ part, s)
unfolding copy_path path_step
copy_path_part str s [] a = ap (λ w. some (w, s)) (sym (append-nil str))
copy_path_part str s (c ∷ part) (p, a) =
    let no : (c == 47) ≡ false = ground (arith, p) in
    rw (copy_path, path_step, no)
      (copy_path_part (str ++ c ∷ []) s part a
        ∙ ap (λ w. some (w, s)) (append_assoc str (c ∷ []) part))

-- Short of the buffer's length, nothing is lost of a path.
copy_path_short :
    (str s path : Text)
    → length str + length path < 79
    → (str' s' : Text) × (copy_path (some (str, s)) path ≡ some (str', s'))
      × (s' ++ str' ≡ s ++ (str ++ path))
      × (length str' < 79)
unfolding copy_path path_step
copy_path_short str s [] p =
    (str, s, refl, ap (λ w. s ++ w) (sym (append-nil str)), omega (arith, p))
copy_path_short str s (c ∷ path) p = elim (Bool-cases (c == 47)) [
  | inr e ↦
      let (str', s', run, all, short) =
        copy_path_short (str ++ c ∷ []) s path (omega (arith, p, length-append str (c ∷ []))) in
      (
        str',
        s',
        rw (copy_path, path_step, e) run,
        all ∙ ap (λ w. s ++ w) (append_assoc str (c ∷ []) path),
        short,
      )
  | inl e ↦
      let fits : ltb 78 (length str) ≡ false = ground (arith, p) in
      let slash : c ≡ 47 = (==_iff c 47).0 e in
      let (str', s', run, all, short) =
        copy_path_short [] (s ++ str ++ 47 ∷ []) path (omega (arith, p)) in
      (
        str',
        s',
        rw (copy_path, path_step, e, fits) run,
        all
            ∙ append_assoc (s ++ str) (47 ∷ []) path
            ∙ append_assoc s str (47 ∷ path)
            ∙ ap (λ d. s ++ (str ++ d ∷ path)) (sym slash),
        short,
      )
]

copy_path_slash :
    (str s part : Text)
    → ltb 78 (length str) ≡ false
    → copy_path (some (str, s)) (47 ∷ part) ≡ copy_path (some ([], s ++ str ++ 47 ∷ [])) part
unfolding copy_path path_step
copy_path_slash str s part e = rw e refl

-- A path is cut behind its last `/`, so what follows that, the last part of a path that does not
-- end with one, is lost.
pub current_path_lem :
    (dir part : Text)
    → NoSlash part
    → length dir + length part < 78
    → nodes_nginx_current_path 120 (dir ++ 47 ∷ part) ≡ some (dir ++ 47 ∷ [])
unfolding nodes_nginx_current_path
current_path_lem dir part a p =
    let (str, s, run, all, short) = copy_path_short [] [] dir (omega (arith, p)) in
    let long : ltb 120 (length (dir ++ 47 ∷ part)) ≡ false =
      ground (arith, p, length-append dir (47 ∷ part)) in
    let fits : ltb 78 (length str) ≡ false = ground (arith, short) in
    let whole : copy_path (some ([], [])) (dir ++ 47 ∷ part) ≡ some (part, s ++ str ++ 47 ∷ []) =
      copy_path_append (some ([], [])) dir (47 ∷ part)
      ∙ ap (λ o. copy_path o (47 ∷ part)) run
      ∙ copy_path_slash str s part fits
      ∙ copy_path_part [] (s ++ str ++ 47 ∷ []) part a in
    let text : s ++ str ++ 47 ∷ [] ≡ dir ++ 47 ∷ [] = ap (λ w. w ++ 47 ∷ []) all in
    let bound : (ltb 80 (length part) || leb 120 (length (dir ++ 47 ∷ []))) ≡ false =
      ground (arith, p, length-append dir (47 ∷ [])) in
    rw (nodes_nginx_current_path, long, whole, text, bound) refl

-- Where a task's file stands: a path of less than 79 characters, cut behind its last `/`.
pub record InDirectory (t : Node) (dir part : Text) : Type 0 where
  pub path_is : t.path ≡ dir ++ 47 ∷ part
  pub no_slash : NoSlash part
  pub short : length dir + length part < 78
  pub named : empty t.name ≡ false

abbrev pub file_in : Text → Text → Text
file_in dir name = (dir ++ 47 ∷ []) ++ name

module _ {t : Node} {dir part : Text} (d : InDirectory t dir part) where
  pub task_file_lem : task_file t ≡ (returns (file_in dir t.name), t)
  unfolding task_file
  task_file_lem =
      rw
        (
          task_file,
          ap (nodes_nginx_current_path 120) d.path_is,
          current_path_lem dir part d.no_slash d.short,
        )
        refl

  pub has_path : empty t.path ≡ false
  unfolding empty
  has_path = rw d.path_is (nonempty dir)
    where
      nonempty : (dir : Text) → empty (dir ++ 47 ∷ part) ≡ false
      nonempty [] = refl
      nonempty (c ∷ dir) = refl

  pub nodes_nginx_delete_file_lem :
      (out : Outside)
      → nodes_nginx_delete_file out t
        ≡ (returns ret_ok, record t { disk = remove (file_in dir t.name) t.disk })
  unfolding nodes_nginx_delete_file with_name
  nodes_nginx_delete_file_lem out = rw (with_name, d.named, has_path, task_file_lem) refl

  -- Let the path of the task hold a slash and have less than 79 characters, and let its name not be
  -- empty. Then a deletion takes the task's file off the disk, and leaves the others and all else as
  -- it was.
  pub nodes_nginx_delete_file-removes :
      (out : Outside) (other : Text)
      → same other (file_in dir t.name) ≡ false
      → (disk : List (Text × Text)) × (nodes_nginx_delete_file out t
          ≡ (returns ret_ok, record t { disk = disk }))
        × (find_file (file_in dir t.name) disk ≡ none)
        × (find_file other disk ≡ find_file other t.disk)
  nodes_nginx_delete_file-removes out other ne = (
    remove (file_in dir t.name) t.disk,
    nodes_nginx_delete_file_lem out,
    find-remove (file_in dir t.name) t.disk,
    find-remove_other (file_in dir t.name) other t.disk ne,
  )
