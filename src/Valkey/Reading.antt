-- ===== src/Valkey/Reading.antt =====
-- What the methods of internal/store/valkeystore/valkeystore.go make of the replies of a client that
-- reaches its server.
use gowait.Prelude.{◌≡◌, refl, ◌∙◌, List, [], ◌∷◌, map, ℤ, pos, eqb_ℤ}
use gowait.Results.{Result, ok, M, ◌>>=◌, pure, >>=-ok}
use gowait.Clock.{Floats}
use gowait.Store.{Snapshot, ReconcileResult}
use gowait.Valkey.Server.{Reply, Replies, int, array, nil, cons, Abort, Client, Reliable}
use gowait.Valkey.Scripts.{four, ints}
use gowait.Valkey.Methods.{
  StoreError, to_status, call, value, elements, snapshot_of, parse_snapshot, is_one, seconds_of,
  result_of,
}

-- float64(msWaited) / 1000.0 of each
abbrev pub in_seconds : {F : Type 0} → Floats F → List ℤ → List F
in_seconds fl = map (λ n. fl.thousandth (fl.of_int64 n))

abbrev pub outcome : {F : Type 0} → ℤ → ℤ → ℤ → List F → ReconcileResult F
outcome a b c w = record { promoted = a; expired = b; evicted = c; waited_secs = w }

module _ {DB E : Type 0} (cl : Client DB E) (rel : Reliable cl) where
  pub call_ok :
      (m : M DB Abort Reply) (d : DB) (r : Reply) → (m d).1 ≡ ok r → call cl m d ≡ ((m d).0, ok r)
  unfolding call
  call_ok m d r h = rw (rel.exec_ok m d r h) refl

  pub value_ok : (n : ℤ) (d : DB) → value cl (int n) d ≡ (d, ok n)
  unfolding value
  value_ok n d = rw (rel.as_int64_ok n) refl

  pub elements_ok : (rs : Replies) (d : DB) → elements cl (array rs) d ≡ (d, ok rs)
  unfolding elements
  elements_ok rs d = rw (rel.to_array_ok rs) refl

  pub is_one_ok :
      (m : M DB Abort Reply) (d : DB) (n : ℤ)
      → (m d).1 ≡ ok (int n)
      → is_one cl m d ≡ ((m d).0, ok (eqb_ℤ n (pos 1)))
  unfolding is_one
  is_one_ok m d n h =
      >>=-ok (call cl m) (λ r. value cl r >>= λ k. pure (eqb_ℤ k (pos 1))) d (m d).0 (int n)
        (call_ok m d (int n) h)
      ∙ >>=-ok (value cl (int n)) (λ k. pure (eqb_ℤ k (pos 1))) (m d).0 (m d).0 n
          (value_ok n (m d).0)

  -- A number that is read, and what comes after.
  pub value_then :
      {B : Type 0} (n : ℤ) (f : ℤ → M DB (StoreError E) B) (d : DB)
      (r : DB × Result (StoreError E) B)
      → f n d ≡ r
      → (value cl (int n) >>= f) d ≡ r
  value_then n f d r h = >>=-ok (value cl (int n)) f d d n (value_ok n d) ∙ h

  elements_then :
      {B : Type 0} (rs : Replies) (f : Replies → M DB (StoreError E) B) (d : DB)
      (r : DB × Result (StoreError E) B)
      → f rs d ≡ r
      → (elements cl (array rs) >>= f) d ≡ r
  elements_then rs f d r h = >>=-ok (elements cl (array rs)) f d d rs (elements_ok rs d) ∙ h

  -- A script's reply that is an array.
  pub array_then :
      {B : Type 0} (m : M DB Abort Reply) (f : Replies → M DB (StoreError E) B) (d : DB)
      (rs : Replies)
      → (m d).1 ≡ ok (array rs)
      → (call cl m >>= λ reply. elements cl reply >>= f) d ≡ f rs (m d).0
  array_then m f d rs h =
      >>=-ok (call cl m) (λ reply. elements cl reply >>= f) d (m d).0 (array rs)
        (call_ok m d (array rs) h)
      ∙ >>=-ok (elements cl (array rs)) f (m d).0 (m d).0 rs (elements_ok rs (m d).0)

  abbrev snapshot : ℤ → ℤ → ℤ → ℤ → Snapshot
  snapshot a b c e = record {
    status = to_status a;
    position = b;
    queue_length = c;
    active_count = e;
  }

  -- A reply of four numbers.
  pub parse_snapshot_ok :
      (m : M DB Abort Reply) (d : DB) (a b c e : ℤ)
      → (m d).1 ≡ ok (four a b c e)
      → parse_snapshot cl m d ≡ ((m d).0, ok (snapshot a b c e))
  unfolding parse_snapshot snapshot_of
  parse_snapshot_ok m d a b c e h =
      let r : DB × Result (StoreError E) Snapshot = ((m d).0, ok (snapshot a b c e)) in
      array_then m (snapshot_of cl) d
        (cons (int a) (cons (int b) (cons (int c) (cons (int e) nil)))) h
      ∙ value_then a
          (λ s. do
            p ← value cl (int b)
            q ← value cl (int c)
            z ← value cl (int e)
            pure (snapshot s p q z))
          (m d).0 r
          (value_then b
            (λ p. do q ← value cl (int c); z ← value cl (int e); pure (snapshot a p q z)) (m d).0 r
            (value_then c (λ q. do z ← value cl (int e); pure (snapshot a b q z)) (m d).0 r
              (value_then e (λ z. pure (snapshot a b c z)) (m d).0 r refl)))

  module _ {F : Type 0} (fl : Floats F) where
    seconds_of_ok :
        (ns : List ℤ) (d : DB) → seconds_of fl cl (ints ns) d ≡ (d, ok (in_seconds fl ns))
    unfolding seconds_of
    seconds_of_ok [] d = refl
    seconds_of_ok (n ∷ ns) d =
        value_then n
          (λ k. do rest ← seconds_of fl cl (ints ns); pure (fl.thousandth (fl.of_int64 k) ∷ rest)) d
          (d, ok (in_seconds fl (n ∷ ns)))
          (>>=-ok (seconds_of fl cl (ints ns)) (λ rest. pure (fl.thousandth (fl.of_int64 n) ∷ rest))
            d d (in_seconds fl ns) (seconds_of_ok ns d))

    pub result_of_ok :
        (a b c : ℤ) (ns : List ℤ) (d : DB)
        → result_of fl cl
            (cons (int a) (cons (int b) (cons (int c) (cons (array (ints ns)) nil))))
            d
          ≡ (d, ok (outcome a b c (in_seconds fl ns)))
    unfolding result_of
    result_of_ok a b c ns d =
        let waits : ℤ → ℤ → ℤ → M DB (StoreError E) (ReconcileResult F) = λ x y z. (do
          ws ← elements cl (array (ints ns))
          w ← seconds_of fl cl ws
          pure (outcome x y z w)) in
        let r : DB × Result (StoreError E) (ReconcileResult F) =
          (d, ok (outcome a b c (in_seconds fl ns))) in
        value_then a (λ x. do y ← value cl (int b); z ← value cl (int c); waits x y z) d r
          (value_then b (λ y. do z ← value cl (int c); waits a y z) d r
            (value_then c (λ z. waits a b z) d r
              (elements_then (ints ns) (λ ws. do w ← seconds_of fl cl ws; pure (outcome a b c w)) d
                r
                (>>=-ok (seconds_of fl cl (ints ns)) (λ w. pure (outcome a b c w)) d d
                  (in_seconds fl ns) (seconds_of_ok ns d)))))
