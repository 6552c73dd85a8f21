-- ===== src/Main/Forwarding.antt =====
-- What the backend sees of a running process.
use gowait.Prelude.{ℕ, ◌+◌, ◌<◌, ◌^◌, ◌≡◌, ◌⊎◌, subst, String, Bool, Option, some, List, length}
use gowait.Results.{ok}
use gowait.Clock.{Floats}
use gowait.Memory.State
use gowait.Valkey.Server.{Commands, Laws, Client, Reliable}
use gowait.Ticket.{Bytes}
use gowait.Ticket.Signer
use gowait.Waitpage.{Templates}
use gowait.Proxy.{HttpUtil}
use gowait.Config.Flags.{Environment}
use gowait.Server.Http.{Request, Moment, forwarded}
use gowait.Server.Guarded.{IsAdmin, IsActive}
use gowait.Server.Forwarded.{serve_forwarded}
use gowait.Main.{Process, Event, ops, respond, run, steps}
use gowait.Main.Running.{promises, steps-IsRunning, steps-server}
use gowait.Main.Starting.{IsFresh, started-IsRunning}

module _ {F DB E R H T : Type 0} (fl : Floats F) (walk : State.Store F → List String)
    (v : Commands DB F) (laws : Laws v) (cl : Client DB E) (rel : Reliable cl)
    (connect : String → String → Option DB) (u : HttpUtil R H) (ts : Templates T Bytes)
    (hmac : Bytes → Bytes → Bytes) (as_string : Bytes → String) where
  -- Let `run` start a process over either store, where the client of Valkey reaches its server
  -- and every store there that is reached is sound, without sessions, and has room below 2^53 for
  -- as many tickets as there are events and one more, which are fewer than 2^63. After any
  -- sequence of the controller's start, requests to any path, ticks of the janitor and ticks of
  -- the prober, a request
  -- that is passed to the backend presents the configured admin key, or a cookie that is a signed
  -- admin session which has not run out (both only where a key is configured), or comes with a
  -- ticket, from its cookie or new, that is active in the store afterwards.
  pub run_forwarded :
      (is_absolute : String → Bool) (env : Environment) (rand : ℕ → Option Bytes)
      (args : List String) (p : Process F DB R H) (es : List Event) (r : Request) (m : Moment)
      → length es + 1 < 2 ^ 63
      → ((url prefix : String) (d : DB)
          → connect url prefix ≡ some d
          → IsFresh fl walk v laws cl rel (length es + 1) d)
      → run fl connect u ts is_absolute env rand args ≡ ok p
      → (respond fl walk v cl hmac as_string (steps fl walk v cl hmac as_string p es) r m).1.answer
        ≡ forwarded
      → let q = steps fl walk v cl hmac as_string p es in
        let mac = Signer.mac hmac p.server.signer in
        let o = ops fl walk v cl in
        let kept = promises fl walk v laws cl rel in
        IsAdmin fl o kept mac as_string p.server.settings r m
        ⊎ IsActive fl o kept mac as_string p.server.settings r m
            (respond fl walk v cl hmac as_string q r m).0
  run_forwarded is_absolute env rand args p es r m room fresh h sent =
      let q = steps fl walk v cl hmac as_string p es in
      let o = ops fl walk v cl in
      let kept = promises fl walk v laws cl rel in
      let running = steps-IsRunning fl walk v laws cl rel hmac as_string 1 es p (
        started-IsRunning fl walk v laws cl rel connect u ts hmac as_string (length es + 1)
          is_absolute env rand args p room fresh h) in
      subst
        (λ srv.
          IsAdmin fl o kept (Signer.mac hmac srv.signer) as_string srv.settings r m
          ⊎ IsActive fl o kept (Signer.mac hmac srv.signer) as_string srv.settings r m
              (respond fl walk v cl hmac as_string q r m).0)
        (steps-server fl walk v laws cl rel hmac as_string es p)
        (serve_forwarded fl o kept (Signer.mac hmac q.server.signer) as_string q.server.settings 0 r
          m q.ctrl running.serving sent)
