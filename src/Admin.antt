-- ===== src/Admin.antt =====
-- images/dataplane/src/main.rs: `echo`, the service of the admin port, and the loop that accepts its
-- connections, which nothing ends.
use argon.Prelude.{
  ℕ, zero, suc, ◌≡◌, refl, Bool, ◌&&◌, Option, none, some, arith, if◌then◌else◌, ◌==◌, list_eq,
}
use argon.Text.{codes}
use argon.Utils.{empty, full}
use argon.Http.{Http, Request, Response}

module _ (http : Http) where
  empty_reply : ℕ → Response http
  empty_reply status = record { status = status; headers = http.empty_map; body = empty http }

  -- `Response::new`
  reply_with : http.Body → Response http
  reply_with body = record { status = 200; headers = http.empty_map; body = body }

  unfoldable pub echo : Request http → Bool → Response http
  unfolding empty_reply reply_with empty full
  echo req ready =
      let path = http.uri_path req.uri in
      if req.method == codes "POST" && path == codes "/echo"
      then reply_with req.body
      else if req.method == codes "GET" && path == codes "/healthz"
      then reply_with (full http (codes "Ok"))
      else if req.method == codes "GET" && path == codes "/readyz"
      then if ready then empty_reply 200 else empty_reply 503
      else empty_reply 404

-- `accepting` waits in `accept`, `sleeping` after an error of it.
pub data AdminPhase : Type 0 where
  accepting sleeping : AdminPhase

pub data AdminEvent : Type 0 where
  accepted accept_failed slept closed : AdminEvent

-- The number of connections whose tasks are running; no one waits for them.
pub record AdminListener : Type 0 where
  pub phase : AdminPhase
  pub open_conns : ℕ

step_admin : AdminPhase → AdminEvent → AdminListener → Option AdminListener
step_admin accepting accepted l = some (record l { open_conns = suc l.open_conns })
step_admin accepting accept_failed l = some (record l { phase = sleeping })
step_admin sleeping slept l = some (record l { phase = accepting })
step_admin p closed l = elim l.open_conns [
  | zero ↦ none
  | suc n ↦ some (record l { open_conns = n })
]
step_admin p e l = none

unfoldable pub step : AdminEvent → AdminListener → Option AdminListener
unfolding step_admin
step e l = step_admin l.phase e l

-- In every phase a further event is possible: the loop never ends.
pub step-live : (l : AdminListener) → (e : AdminEvent) × (o : AdminListener) × (step e l ≡ some o)
unfolding step step_admin
step-live l = by_phase l.phase refl
  where
    by_phase :
        (p : AdminPhase)
        → l.phase ≡ p
        → (e : AdminEvent) × (o : AdminListener) × (step e l ≡ some o)
    by_phase accepting at = (accepted, record l { open_conns = suc l.open_conns }, ground arith)
    by_phase sleeping at = (slept, record l { phase = accepting }, ground arith)
