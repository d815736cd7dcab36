-- ===== src/Control/Session.antt =====
-- src/controller.rs: the responses of a control connection, and a tunnel opened and closed by it.
use plexy.Prelude.{
  ℕ, suc, ◌≡◌, refl, sym, inl, inr, Bool, true, false, List, [], ◌∷◌, Text, length, Bool-cases,
  ◌==◌, if◌then◌else◌,
}
use plexy.Tunnel.{SocketSpec, F32}
use plexy.Errors.{Result, ok, err, Result-cases}
use plexy.Maps.{KeyedMap, IndexMap}
use plexy.State.Store.{State, number_of_tunnels, remote_stats, tunnel_options}
use plexy.Control.Request.{
  CommandRequest, opens, closes, status, detail, help, exit, invalid, adds, removes,
}
use plexy.Control.Response.{CommandResponse, response_ok, problem, info, response_done, from_result}
use plexy.Control.Exec.{Outside, exec_status, exec_detail, exec, respond, answer, control_loop}

abbrev pub is_done : CommandResponse → Bool
is_done response_done = true
is_done response_ok = false
is_done (problem x) = false
is_done (info x y) = false

abbrev pub is_exit : Result CommandRequest → Bool
is_exit (ok exit) = true
is_exit _ = false

from_result-is_done : {A : Type 0} (r : Result A) → is_done (from_result r) ≡ false
from_result-is_done (ok a) = refl
from_result-is_done (err e) = refl

module _ (f32_to_string : F32 → Text) (im : IndexMap) (dm : KeyedMap) where
  abbrev pub Item : Type 0
  Item = Outside f32_to_string im dm × Result CommandRequest

  -- How many items stand before the first EXIT.
  abbrev pub before_exit : List Item → ℕ
  before_exit [] = 0
  before_exit ((o, cmd) ∷ cmds) = if is_exit cmd then 0 else suc (before_exit cmds)

  exec_status-is_done :
      (o : Outside f32_to_string im dm) (long : Bool) (s : State im dm)
      → is_done (exec_status f32_to_string im dm o long s).1 ≡ false
  unfolding exec_status
  exec_status-is_done o long s = elim (Bool-cases (number_of_tunnels im dm s == 0)) [
    | inl x ↦ rw (x, exec_status) refl
    | inr x ↦ rw (x, exec_status) refl
  ]

  exec_detail-is_done :
      (o : Outside f32_to_string im dm) (l : SocketSpec) (s : State im dm)
      → is_done (exec_detail f32_to_string im dm o l s).1 ≡ false
  unfolding exec_detail
  exec_detail-is_done o l s = elim (Result-cases (remote_stats im dm s l)) [
    | inr (x, e) ↦ rw (e, exec_detail) refl
    | inl (x, e) ↦ elim (Result-cases (tunnel_options im dm (o.between s) l)) [
      | inl (y, f) ↦ rw (e, f, exec_detail) refl
      | inr (y, f) ↦ rw (e, f, exec_detail) refl
    ]
  ]

  -- EXIT, and only EXIT, ends the loop.
  respond-is_done :
      (o : Outside f32_to_string im dm) (cmd : Result CommandRequest) (s : State im dm)
      → is_done (respond f32_to_string im dm o cmd s).1 ≡ is_exit cmd
  unfolding respond exec
  respond-is_done o (err e) s = refl
  respond-is_done o (ok (opens t)) s = from_result-is_done _
  respond-is_done o (ok (closes l)) s = from_result-is_done _
  respond-is_done o (ok (adds l r)) s = from_result-is_done _
  respond-is_done o (ok (removes l r)) s = from_result-is_done _
  respond-is_done o (ok (status long)) s = exec_status-is_done o long s
  respond-is_done o (ok (detail l)) s = exec_detail-is_done o l s
  respond-is_done o (ok help) s = refl
  respond-is_done o (ok exit) s = refl
  respond-is_done o (ok (invalid e)) s = refl

  answer_length :
      (r : State im dm × CommandResponse) (rest : State im dm → State im dm × List CommandResponse)
      (n : ℕ) (b : Bool)
      → is_done r.1 ≡ b
      → ((s : State im dm) → length (rest s).1 ≡ n)
      → length (answer f32_to_string im dm r rest).1 ≡ (if b then 0 else suc n)
  answer_length (s, response_done) rest n b e h = rw (sym e) refl
  answer_length (s, response_ok) rest n b e h = rw (sym e, h s) refl
  answer_length (s, problem x) rest n b e h = rw (sym e, h s) refl
  answer_length (s, info x y) rest n b e h = rw (sym e, h s) refl

  -- A control connection sends one response for each item before the first EXIT, be the item a
  -- command, an invalid command or an error of the reader, and none from there on.
  pub length-control_loop :
      (cmds : List Item) (s : State im dm)
      → length (control_loop f32_to_string im dm cmds s).1 ≡ before_exit cmds
  unfolding control_loop
  length-control_loop [] s = refl
  length-control_loop ((o, cmd) ∷ cmds) s =
      answer_length _ _ (before_exit cmds) (is_exit cmd) (respond-is_done o cmd (o.waiting s))
        (length-control_loop cmds)

  pub loop_ok :
      (o : Outside f32_to_string im dm) (cmd : Result CommandRequest) (cmds : List Item)
      (s v : State im dm)
      → respond f32_to_string im dm o cmd (o.waiting s) ≡ (v, response_ok)
      → control_loop f32_to_string im dm ((o, cmd) ∷ cmds) s ≡ (
        (control_loop f32_to_string im dm cmds v).0,
        response_ok ∷ (control_loop f32_to_string im dm cmds v).1,
      )
  unfolding control_loop
  loop_ok o cmd cmds s v h = rw h refl
