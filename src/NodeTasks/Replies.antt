-- ===== src/NodeTasks/Replies.antt =====
-- How many replies a task gets, and what stands in them.
use hystack.Prelude.{
  ℕ, ◌+◌, ◌≡◌, refl, ap, ◌∙◌, Bool, true, false, Option, none, some, [], ◌∷◌, ◌++◌, ◌⊎◌, inl, inr,
  arith, if◌then◌else◌, length, length-append, Bool-cases,
}
use hystack.Prelude.Int.{ℤ, pos}
use hystack.NodeTasks.{Text, Node, Outcome, returns, throws, faults, Act, ret_error, empty}
use hystack.NodeTasks.Handlers.{packet_text, nodes_return_packet, set_reply, answer, try}
use hystack.NodeTasks.Dispatch.{Request, failed_handler, after_handler, handle, nodes_task_dispatch}

-- The node after one more reply: the text of a message is lost.
unfoldable pub replied : ℤ → Node → Node
replied code t = record t {
  error_id = code;
  message = [];
  replies = t.replies ++ packet_text t.request_id code ∷ [];
}

failed_handler-replied : (t : Node) → failed_handler t ≡ (returns ret_error, replied (pos 901) t)
unfolding failed_handler nodes_return_packet set_reply replied
failed_handler-replied t = refl

json_cases :
    (json : Option (Option Text))
    → (json ≡ none) ⊎ ((json ≡ some none) ⊎ ((payload : Text) × (json ≡ some (some payload))))
json_cases none = inl refl
json_cases (some none) = inr (inl refl)
json_cases (some (some payload)) = inr (inr (payload, refl))

-- Whether a body returns or throws.
unfoldable pub ends : Outcome Unit → Bool
ends (returns _) = true
ends (throws _ _) = true
ends faults = false

-- Whether the dispatcher finds an id, and JSON with an item `data`.
unfoldable pub readable : Request → Bool
readable request =
    if empty request.request_id
    then false
    else elim request.json [ none ↦ false | some none ↦ false | some (some _) ↦ true ]

-- A task without an id, without JSON or without an item `data` gets one reply, with 901, and no
-- handler sees it.
pub nodes_task_dispatch_unreadable :
    (proc : ℕ → Option (Text → Act ℤ)) (request : Request) (t : Node)
    → readable request ≡ false
    → nodes_task_dispatch proc request t ≡ (returns ret_error, replied (pos 901) t)
unfolding nodes_task_dispatch readable
nodes_task_dispatch_unreadable proc request t e = elim (Bool-cases (empty request.request_id)) [
  | inl blank ↦ rw (nodes_task_dispatch, blank) (failed_handler-replied t)
  | inr has ↦ elim (json_cases request.json) [
    | inl none_read ↦ rw (nodes_task_dispatch, has, none_read) (failed_handler-replied t)
    | inr (inl no_data) ↦ rw (nodes_task_dispatch, has, no_data) (failed_handler-replied t)
    | inr (inr (payload, some_data)) ↦
        let r : readable request ≡ true = rw (readable, has, some_data) refl in
        absurd (ground (arith, r, e))
  ]
]

answered_once :
    (o : Outcome Unit) (t : Node)
    → ends o ≡ true
    → length (after_handler (answer (o, t))).1.replies ≡ length t.replies + 1
unfolding after_handler answer nodes_return_packet set_reply ends
answered_once (returns _) t e = length-append t.replies (packet_text t.request_id (pos 200) ∷ [])
answered_once (throws what code) t e = length-append t.replies (packet_text t.request_id code ∷ [])
answered_once faults t e = absurd (ground (arith, e))

handler_once :
    (body : Act Unit) (u : Node)
    → (body u).1.replies ≡ u.replies
    → ends (body u).0 ≡ true
    → length (after_handler (try body u)).1.replies ≡ length u.replies + 1
unfolding after_handler try
handler_once body u keeps sound =
    answered_once (body u).0 (body u).1 sound ∙ ap (λ r. length r + 1) keeps

-- A readable task gets no reply if its number has no handler. If the handler is the frame of
-- nodes_tasks.cpp around a body that neither replies nor is undefined, it gets one.
pub nodes_task_dispatch-replies :
    (proc : ℕ → Option (Text → Act ℤ)) (request : Request) (payload : Text) (body : Text → Act Unit)
    (t : Node)
    → empty request.request_id ≡ false
    → request.json ≡ some (some payload)
    → ((u : Node) → (body payload u).1.replies ≡ u.replies)
    → ((u : Node) → ends (body payload u).0 ≡ true)
    → (proc request.function_id ≡ none)
      ⊎ (proc request.function_id ≡ some (λ text. try (body text)))
    → length (nodes_task_dispatch proc request t).1.replies
      ≡ length t.replies + (elim (proc request.function_id) [ none ↦ 0 | some _ ↦ 1 ])
unfolding nodes_task_dispatch handle
nodes_task_dispatch-replies proc request payload body t has json keeps sound (inl absent) =
    rw (nodes_task_dispatch, has, json, handle, absent) (omega arith)
nodes_task_dispatch-replies proc request payload body t has json keeps sound (inr found) =
    let u : Node = record t { request_id = t.task_id } in
    rw (nodes_task_dispatch, has, json, handle, found)
      (handler_once (body payload) u (keeps u) (sound u))
