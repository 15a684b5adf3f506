-- ===== src/NodeTasks/Steps.antt =====
-- What the handlers make of the server's answers.
use hystack.Prelude.{
  ◌≡◌, refl, ap, false, [], ◌∷◌, ◌++◌, inl, inr, if◌then◌else◌, Option-cases, Bool-cases,
}
use hystack.Prelude.Int.{pos}
use hystack.Base64.{codes}
use hystack.NodeTasks.{
  Text, Node, Outside, returns, is_error, same, empty, strstr, popen, test_result, silent,
  nodes_process_test_nginx, nodes_process_check_nginx, no_socket, broken, unsent, answered,
  Exchange,
}
use hystack.NodeTasks.Disk.{defense_pack, after_exchange, nodes_nginx_unix_socket}
use hystack.NodeTasks.Handlers.{
  Packet, throw_on, throw_err, check_nginx, step_operation, nodes_task_step_process, try, answer,
  set_reply, nodes_return_packet, ask_server,
}
use hystack.NodeTasks.Dispatch.{test_conf}

test_result_passes : (out : Outside) (err : Text) → is_error (test_result out err) ≡ false
unfolding is_error test_result
test_result_passes out err = elim (Option-cases (strstr err (codes "syntax is ok"))) [
  | inl e ↦ rw (test_result, e) refl
  | inr (ptr2, e) ↦ elim (Option-cases (strstr ptr2 (codes "test is successful"))) [
    | inr (_, f) ↦ rw (test_result, e, f) refl
    | inl f ↦ elim (Option-cases (strstr ptr2 (codes "[alert]"))) [
      | inl g ↦ rw (test_result, e, f, g) refl
      | inr (_, g) ↦ rw (test_result, e, f, g) refl
    ]
  ]
]

-- Whatever `nginx -t` prints, its result is not RET_ERROR: the handler goes on as if the new
-- configuration had passed, and only keeps the text.
pub test_conf-passes :
    (out : Outside) (path name : Text) (t : Node) → (test_conf out path name t).0 ≡ returns tt
unfolding test_conf nodes_process_test_nginx popen
test_conf-passes out path name t =
    let c = t.nginx.sbin ++ codes "nginx -t 2>&1" in
    rw (test_result_passes out (out.prints t.commands c)) refl

-- The text printed by the command that looks for the server.
abbrev pub looks_for : Text
looks_for = codes "ps aux |grep nginx |grep -v grep | awk '{print $2}'"

after_command : Outside → Text → Node → Node
after_command out c t = record t { err = out.prints t.commands c; commands = t.commands ++ c ∷ [] }

-- The task `check` is answered with 900 where the server runs, that is where the command prints
-- something, and with 200 where it does not.
pub step_check :
    (out : Outside) (step : Packet) (t : Node)
    → step.operate ≡ codes "check"
    → (nodes_task_step_process out step t).1.error_id
      ≡ (if empty (out.prints t.commands looks_for) then pos 200 else pos 900)
unfolding nodes_task_step_process step_operation check_nginx nodes_process_check_nginx silent popen
    throw_err throw_on is_error same try answer set_reply nodes_return_packet
step_check out step t e = elim (Bool-cases (empty (out.prints t.commands looks_for))) [
  | inl quiet ↦ rw (e, quiet) refl
  | inr loud ↦ rw (e, loud) refl
]

exchange_requests :
    (out : Outside) (x : Exchange) (t u : Node)
    → t.requests ≡ u.requests
    → (after_exchange out x t).1.requests ≡ (after_exchange out x u).1.requests
unfolding after_exchange
exchange_requests out no_socket t u e = e
exchange_requests out unsent t u e = e
exchange_requests out broken t u e = ap (λ r. r ++ defense_pack out ∷ []) e
exchange_requests out answered t u e = ap (λ r. r ++ defense_pack out ∷ []) e

-- The server is asked the same whatever the packet and the operation are: neither is in the request.
pub ask_server-constant :
    (out : Outside) (opt opt' : Text) (defense other : Packet) (t : Node)
    → (ask_server out opt defense t).1.requests ≡ (ask_server out opt' other t).1.requests
unfolding ask_server nodes_nginx_unix_socket
ask_server-constant out opt opt' defense other t =
    exchange_requests out (out.exchange (defense_pack out))
      (record t { opt = opt; path = t.nginx.conf; content = defense.content })
      (record t { opt = opt'; path = t.nginx.conf; content = other.content }) refl
