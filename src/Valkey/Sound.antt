-- ===== src/Valkey/Sound.antt =====
-- The tickets of a database: those with a session, and those in line. `seen` and the hashes only decide
-- when a ticket goes, and are not part of it.
use gowait.Prelude.{
  ℕ, suc, ◌+◌, ◌^◌, ◌<◌, ◌≡◌, refl, ap, fun_ext, ◌⊎◌, inl, inr, String, Option, none, some, List,
  [], ◌∷◌, ◌++◌, ℤ, pos, pos_part, ◌+ℤ◌, ◌≤ℤ◌, ◌<ℤ◌, length, All, arith, str_eq, str_eq-cases,
  str_eq_refl, Bool-cases,
}
use gowait.GoMap
use gowait.GoMap.{Distinct, keys, lookup-remove, remove-Distinct}
use gowait.Store.{Status}
use gowait.Store.Promises.{View}
use gowait.Valkey.SortedSets.{SortedSet, place, members}
use gowait.Valkey.SortedSets.Placing.{
  lookup-place, place-Distinct, length-place_new, length-place_old, place_last,
}
use gowait.Valkey.SortedSets.Removing.{removes, removes-Distinct, lookup-removes}

abbrev pub status_in : Option ℤ → Option ℤ → Status
status_in (some _) _ = Status.active
status_in none (some _) = Status.queued
status_in none none = Status.unknown

-- What a client sees of the sets `active` and `order`.
abbrev pub view_of : SortedSet → SortedSet → View
view_of act ord = record {
  status = λ i. status_in (GoMap.lookup i act) (GoMap.lookup i ord);
  line = members ord;
  active = pos (length act);
}

-- Nobody is active and in line, and the counter is not below any score, with `n` steps to 2^53.
pub record IsSound (n : ℕ) (act ord : SortedSet) (counter : ℤ) : Type 0 where
  pub active_distinct : Distinct act
  pub order_distinct : Distinct ord
  pub apart : (i : String) → (GoMap.lookup i act ≡ none) ⊎ (GoMap.lookup i ord ≡ none)
  pub reached : All (λ m. m.1 ≤ℤ counter) ord
  pub start : pos 0 ≤ℤ counter
  pub room : pos_part counter + n < 2 ^ 53

pub weaken-IsSound :
    (n : ℕ) (act ord : SortedSet) (k : ℤ) → IsSound (suc n) act ord k → IsSound n act ord k
weaken-IsSound n act ord k s = record {
  active_distinct = s.active_distinct;
  order_distinct = s.order_distinct;
  apart = s.apart;
  reached = s.reached;
  start = s.start;
  room = omega (arith, s.room);
}

-- Two views with the same status of each ticket, line and number.
pub view_path :
    (v w : View)
    → ((i : String) → v.status i ≡ w.status i)
    → v.line ≡ w.line
    → v.active ≡ w.active
    → v ≡ w
view_path v w a b c = λ j. record { status = fun_ext a j; line = b j; active = c j }

remove-reached :
    (k : ℤ) (i : String) (l : SortedSet)
    → All (λ m. m.1 ≤ℤ k) l
    → All (λ m. m.1 ≤ℤ k) (GoMap.remove i l)
unfolding GoMap.remove
remove-reached k i [] h = tt
remove-reached k i ((j, y) ∷ l) h = elim (Bool-cases (str_eq j i)) [
  | inl b ↦ rw b (remove-reached k i l h.1)
  | inr b ↦ rw b (h.0, remove-reached k i l h.1)
]

removes-reached :
    (k : ℤ) (is : List String) (l : SortedSet)
    → All (λ m. m.1 ≤ℤ k) l
    → All (λ m. m.1 ≤ℤ k) (removes is l)
unfolding removes
removes-reached k [] l h = h
removes-reached k (i ∷ is) l h = removes-reached k is (GoMap.remove i l) (remove-reached k i l h)

module _ (n : ℕ) (act ord : SortedSet) (k : ℤ) (s : IsSound n act ord k) where
  -- A ticket that is not in line gets a session, or keeps it.
  pub place-IsSound :
      (x : ℤ) (i : String) → GoMap.lookup i ord ≡ none → IsSound n (place x i act) ord k
  place-IsSound x i h = record {
    active_distinct = place-Distinct x i act s.active_distinct;
    order_distinct = s.order_distinct;
    apart = λ j. elim (str_eq-cases i j) [
      | inl (b, e) ↦ inr (rw e at h)
      | inr (b, e) ↦ elim (s.apart j) [
        | inl out ↦ inl (rw (lookup-place x i j act, b) out)
        | inr out ↦ inr out
      ]
    ];
    reached = s.reached;
    start = s.start;
    room = s.room;
  }

  -- One with a session is not in line.
  pub active_out : (y : ℤ) (i : String) → GoMap.lookup i act ≡ some y → GoMap.lookup i ord ≡ none
  active_out y i h = elim (s.apart i) [ inl out ↦ absurd (ground (arith, h, out)) | inr out ↦ out ]

  -- A session is seen.
  pub touch_view :
      (x y : ℤ) (i : String)
      → GoMap.lookup i act ≡ some y
      → view_of (place x i act) ord ≡ view_of act ord
  touch_view x y i h =
      view_path (view_of (place x i act) ord) (view_of act ord)
        (λ j. elim (str_eq-cases i j) [
          | inl (b, e) ↦ rw (lookup-place x i j act, b, rw e at h) refl
          | inr (b, e) ↦ rw (lookup-place x i j act, b) refl
        ])
        refl (ap pos (length-place_old x y i act s.active_distinct h))

  -- A new session.
  pub enter_view :
      (x : ℤ) (i : String)
      → GoMap.lookup i act ≡ none
      → (status_in (GoMap.lookup i (place x i act)) (GoMap.lookup i ord) ≡ Status.active)
        × (pos (length (place x i act)) ≡ pos (length act) +ℤ pos 1)
  enter_view x i h =
      (rw (lookup-place x i i act, str_eq_refl i) refl, ground (arith, length-place_new x i act h))

  -- Sessions end.
  pub expire-IsSound : (is : List String) → IsSound n (removes is act) ord k
  expire-IsSound is = record {
    active_distinct = removes-Distinct is act s.active_distinct;
    order_distinct = s.order_distinct;
    apart = λ j. elim (s.apart j) [
      | inl out ↦ inl (ground (arith, lookup-removes is j act, out))
      | inr out ↦ inr out
    ];
    reached = s.reached;
    start = s.start;
    room = s.room;
  }

  -- Ghosts leave the line.
  pub evict-IsSound : (is : List String) → IsSound n act (removes is ord) k
  evict-IsSound is = record {
    active_distinct = s.active_distinct;
    order_distinct = removes-Distinct is ord s.order_distinct;
    apart = λ j. elim (s.apart j) [
      | inl out ↦ inl out
      | inr out ↦ inr (ground (arith, lookup-removes is j ord, out))
    ];
    reached = removes-reached k is ord s.reached;
    start = s.start;
    room = s.room;
  }

-- The head of the line gets a session.
pub promote-IsSound :
    (n : ℕ) (act : SortedSet) (i : String) (y : ℤ) (ord : SortedSet) (k x : ℤ)
    → IsSound n act ((i, y) ∷ ord) k
    → IsSound n (place x i act) ord k × (GoMap.lookup i act ≡ none)
unfolding GoMap.lookup
promote-IsSound n act i y ord k x s = (
  place-IsSound n act ord k
      (record {
        active_distinct = s.active_distinct;
        order_distinct = s.order_distinct.1;
        apart = λ j. elim (s.apart j) [ inl out ↦ inl out | inr out ↦ inr (ground (arith, out)) ];
        reached = s.reached.1;
        start = s.start;
        room = s.room;
      })
      x i s.order_distinct.0,
  elim (s.apart i) [ inl out ↦ out | inr out ↦ absurd (ground (arith, out, str_eq_refl i)) ],
)

pub reached_step :
    (k : ℤ) (l : SortedSet) → All (λ m. m.1 ≤ℤ k) l → All (λ m. m.1 <ℤ (k +ℤ pos 1)) l
reached_step k [] h = tt
reached_step k ((j, y) ∷ l) h = (ground (arith, h.0), reached_step k l h.1)

reached_last :
    (k : ℤ) (i : String) (l : SortedSet)
    → All (λ m. m.1 ≤ℤ k) l
    → All (λ m. m.1 ≤ℤ (k +ℤ pos 1)) (l ++ (i, k +ℤ pos 1) ∷ [])
reached_last k i [] h = (omega arith, tt)
reached_last k i ((j, y) ∷ l) h = (ground (arith, h.0), reached_last k i l h.1)

-- A new ticket joins the line at its end.
pub join-IsSound :
    (n : ℕ) (act ord : SortedSet) (k : ℤ) (i : String)
    → IsSound (suc n) act ord k
    → GoMap.lookup i act ≡ none
    → GoMap.lookup i ord ≡ none
    → IsSound n act (place (k +ℤ pos 1) i ord) (k +ℤ pos 1)
      × (place (k +ℤ pos 1) i ord ≡ ord ++ (i, k +ℤ pos 1) ∷ [])
join-IsSound n act ord k i s a b =
    let last = place_last (k +ℤ pos 1) i ord b (reached_step k ord s.reached) in
    (
      record {
        active_distinct = s.active_distinct;
        order_distinct = place-Distinct (k +ℤ pos 1) i ord s.order_distinct;
        apart = λ j. elim (str_eq-cases i j) [
          | inl (q, e) ↦ inl (rw e at a)
          | inr (q, e) ↦ elim (s.apart j) [
            | inl out ↦ inl out
            | inr out ↦ inr (rw (lookup-place (k +ℤ pos 1) i j ord, q) out)
          ]
        ];
        reached = rw last (reached_last k i ord s.reached);
        start = ground (arith, s.start);
        room = ground (arith, s.room, s.start);
      },
      last,
    )
