-- ===== src/Valkey/Errors.antt =====
-- The errors of internal/store/valkeystore/valkeystore.go: a server that is not reached, and replies that
-- are not of the length that a script's answer has.
use gowait.Prelude.{◌≡◌, refl, ap, String, false, Option, none, some, [], ◌∷◌, ℤ, pos, eqb_ℤ}
use gowait.Results.{Result, ok, error, M, ◌>>=◌, pure}
use gowait.Clock.{Duration, Time, Floats}
use gowait.Valkey.Server.{okay, capacity, Reply, Abort, Commands, Client}
use gowait.Decimal.{itoa}
use gowait.Valkey.Scripts.{
  try_admit_script, enqueue_script, lookup_script, touch_script, reconcile_script, flush_script,
  stats_script,
}
use gowait.Valkey.Methods.{
  StoreError, client, call, value, elements, snapshot_of, parse_snapshot, is_one, try_admit,
  enqueue, lookup, touch, flush, result_of, stats_of, unix_milli, milliseconds, set_capacity,
  get_capacity, adopt, get_reply, lock_reply, try_lock, reconcile, stats,
}

-- A chain whose first call fails.
>>=-error :
    {S E A B : Type 0} (m : M S E A) (f : A → M S E B) (s : S) (e : E)
    → (m s).1 ≡ error e
    → ((m >>= f) s).1 ≡ error e
>>=-error {S = S} {E = E} {A = A} {B = B} m f s e h =
    let step : Result E A → S × Result E B =
      λ r. elim r [ ok b ↦ f b (m s).0 | error x ↦ ((m s).0, error x) ] in
    ap (λ r. (step r).1) h

-- The method fails with this error of the client, whatever it is called with.
abbrev pub Fails : {DB E A : Type 0} → E → DB → M DB (StoreError E) A → Type 0
Fails {A = A} e d m = (m d).1 ≡ error (client e)

module _ {DB E F : Type 0} (fl : Floats F) (v : Commands DB F) (cl : Client DB E) where
  call_lost :
      (m : M DB Abort Reply) (d : DB) (e : E)
      → (cl.exec m d).1 ≡ error e
      → (call cl m d).1 ≡ error (client e)
  unfolding call
  call_lost m d e h = rw h refl

  module _ (e : E) (d : DB) (lost : (m : M DB Abort Reply) → (cl.exec m d).1 ≡ error e) where
    fails :
        {A : Type 0} (m : M DB Abort Reply) (f : Reply → M DB (StoreError E) A)
        → Fails e d (call cl m >>= f)
    fails m f = >>=-error (call cl m) f d (client e) (call_lost m d e (lost m))

    is_one_lost : (m : M DB Abort Reply) → Fails e d (is_one cl m)
    unfolding is_one
    is_one_lost m = fails m (λ reply. value cl reply >>= λ n. pure (eqb_ℤ n (pos 1)))

    parse_snapshot_lost : (m : M DB Abort Reply) → Fails e d (parse_snapshot cl m)
    unfolding parse_snapshot
    parse_snapshot_lost m = fails m (λ reply. elements cl reply >>= snapshot_of cl)

    get_capacity_lost : cl.is_nil e ≡ false → Fails e d (get_capacity v cl)
    unfolding get_capacity adopt
    get_capacity_lost real = rw (get_capacity, lost (get_reply v cl), adopt, real) refl

    try_lock_lost :
        (name : String) (ttl : Duration) → cl.is_nil e ≡ false → Fails e d (try_lock v cl name ttl)
    unfolding try_lock
    try_lock_lost name ttl real =
        rw (try_lock, lost (lock_reply v cl (49 ∷ []) name ttl), real) refl

  -- Where every script and command of the client fails with an error that is not nil, the ten
  -- methods fail with this error of the client, GetCapacity and TryLock included, and none
  -- answers in its place.
  pub lost_server :
      (e : E) (d : DB) (id name : String) (limit : ℤ) (a b : Duration) (now : Time)
      → ((m : M DB Abort Reply) → (cl.exec m d).1 ≡ error e)
      → cl.is_nil e ≡ false
      → Fails e d (try_admit v cl id limit now)
        × Fails e d (enqueue v cl id now)
        × Fails e d (lookup v cl id now)
        × Fails e d (touch v cl id now)
        × Fails e d (reconcile fl v cl limit a b now)
        × Fails e d (stats fl v cl)
        × Fails e d (flush v cl)
        × Fails e d (set_capacity v cl limit)
        × Fails e d (get_capacity v cl)
        × Fails e d (try_lock v cl name a)
  unfolding try_admit enqueue lookup touch reconcile stats flush set_capacity get_capacity try_lock
  lost_server e d id name limit a b now lost real =
      let said : Option E → Result (StoreError E) (Unit {0}) =
        λ r. elim r [ none ↦ ok tt | some x ↦ error (client x) ] in
      (
        is_one_lost e d lost (try_admit_script v id limit (unix_milli now)),
        parse_snapshot_lost e d lost (enqueue_script v id (unix_milli now)),
        parse_snapshot_lost e d lost (lookup_script v id (unix_milli now)),
        is_one_lost e d lost (touch_script v id (unix_milli now)),
        fails e d lost
            (reconcile_script v fl limit (milliseconds a) (milliseconds b) (unix_milli now))
            (λ reply. elements cl reply >>= result_of fl cl),
        fails e d lost (stats_script v) (λ reply. elements cl reply >>= stats_of fl cl),
        fails e d lost (flush_script v) (value cl),
        fails e d lost (λ x. (v.set capacity (itoa limit) x, ok okay))
            (λ reply x. (x, said (cl.reply_error reply))),
        get_capacity_lost e d lost real,
        try_lock_lost e d lost name a real,
      )
