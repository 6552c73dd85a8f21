-- ===== src/Valkey/Tests/Database.antt =====
-- A database of the commands that the store uses, and clients of it.
use gowait.Prelude.{
  ◌≡◌, refl, String, Bool, true, false, Option, none, some, List, [], ℤ, pos, ◌+ℤ◌, length, arith,
  if◌then◌else◌, str_eq, str_eq_refl, inl, inr, Option-cases,
}
use gowait.Results.{Result, ok, error, M}
use gowait.Decimal.{itoa, atoi}
use gowait.GoMap
use gowait.GoMap.{lookup-remove}
use gowait.Valkey.SortedSets.{place, rank, below, first, behind}
use gowait.Valkey.Server.{
  SetKey, HashKey, TextKey, Bytes, Reply, Replies, null, int, text, array, Abort, Contents,
  with_set, Commands, Laws, Client, Reliable, admitted, enqueued, avg, capacity, lock,
}

pub record Db : Type 0 where
  pub contents : Contents
  pub hashes : HashKey → List (String × ℤ)
  pub texts : TextKey → Option Bytes

abbrev same_hash : HashKey → HashKey → Bool
same_hash admitted admitted = true
same_hash enqueued enqueued = true
same_hash _ _ = false

abbrev same_text : TextKey → TextKey → Bool
same_text avg avg = true
same_text capacity capacity = true
same_text (lock i) (lock j) = str_eq i j
same_text _ _ = false

same_text_refl : (k : TextKey) → same_text k k ≡ true
same_text_refl avg = refl
same_text_refl capacity = refl
same_text_refl (lock i) = str_eq_refl i

abbrev store_set : SetKey → List (String × ℤ) → Db → Db
store_set k l d = record d { contents = with_set k l d.contents }

abbrev store_hash : HashKey → List (String × ℤ) → Db → Db
store_hash k l d = record d { hashes = λ j. if same_hash k j then l else d.hashes j }

abbrev store_text : TextKey → Bytes → Db → Db
store_text k s d = record d { texts = λ j. if same_text k j then some s else d.texts j }

abbrev store_once : TextKey → Bytes → Db → Db × Bool
store_once k s d = elim (d.texts k) [ none ↦ (store_text k s d, true) | some t ↦ (d, false) ]

abbrev pub commands : Commands Db ℤ
commands = record {
  contents = λ d. d.contents;
  zscore = λ k i d. GoMap.lookup i (d.contents.sorted k);
  zcard = λ k d. length (d.contents.sorted k);
  zrank = λ k i d. rank i (d.contents.sorted k);
  zbelow = λ k x d. below x (d.contents.sorted k);
  zadd = λ k x i d. store_set k (place x i (d.contents.sorted k)) d;
  zrem = λ k i d. store_set k (GoMap.remove i (d.contents.sorted k)) d;
  zpopmin = λ k d. (store_set k (behind (d.contents.sorted k)) d, first (d.contents.sorted k));
  hget = λ k i d. GoMap.lookup i (d.hashes k);
  hset = λ k i x d. store_hash k (GoMap.insert i x (d.hashes k)) d;
  hdel = λ k i d. store_hash k (GoMap.remove i (d.hashes k)) d;
  incr = λ d. (
    record d { contents = record d.contents { counter = d.contents.counter +ℤ pos 1 } },
    d.contents.counter +ℤ pos 1,
  );
  get = λ k d. d.texts k;
  set = store_text;
  set_nx = λ k s ttl d. elim (d.texts k) [ none ↦ (store_text k s d, true) | some t ↦ (d, false) ];
  del_set = λ k d. store_set k [] d;
  del_hash = λ k d. store_hash k [] d;
  tonumber = atoi;
  tostring = itoa;
}

set_nx_same : (k : TextKey) (s : Bytes) (d : Db) → (store_once k s d).0.contents ≡ d.contents
set_nx_same k s d = elim (Option-cases (d.texts k)) [
  | inl e ↦ rw (e, store_once) refl
  | inr (t, e) ↦ rw (e, store_once) refl
]

pub commands-laws : Laws commands
commands-laws = record {
  zscore_lem = λ k i d. refl;
  zcard_lem = λ k d. refl;
  zrank_lem = λ k i d. refl;
  zbelow_lem = λ k x d. refl;
  zadd_lem = λ k x i d. refl;
  zrem_lem = λ k i d. refl;
  zpopmin_lem = λ k d. (refl, refl);
  hset_lem = λ k i x d. refl;
  hdel_lem = λ k i d. refl;
  hget-zadd = λ h j k x i d. refl;
  hget-zrem = λ h j k i d. refl;
  hget-zpopmin = λ h j k d. refl;
  hget-set = λ h j k s d. refl;
  hget-hset = λ j i x d. refl;
  hget-hdel = λ j i d. refl;
  hget-hdel_other = λ j i d n. ground (arith, lookup-remove i j (d.hashes enqueued), n);
  incr_lem = λ d. (refl, refl);
  set_lem = λ k s d. refl;
  get-set = λ k s d. rw (same_text_refl k) refl;
  set_nx_new = λ k s ttl d h free. rw free (refl, rw (same_text_refl k) refl);
  set_nx_held = λ k s t ttl d h held. rw held refl;
  set_nx_lem = λ k s ttl d. set_nx_same k s d;
  del_set_lem = λ k d. refl;
  del_hash_lem = λ k d. refl;
}

pub data Fault : Type 0 where
  nil_reply wrong_type aborted unreachable : Fault

abbrev number : Reply → Result Fault ℤ
number (int n) = ok n
number _ = error Fault.wrong_type

abbrev elements : Reply → Result Fault Replies
elements (array rs) = ok rs
elements _ = error Fault.wrong_type

abbrev string : Reply → Result Fault Bytes
string (text s) = ok s
string null = error Fault.nil_reply
string _ = error Fault.wrong_type

abbrev failure : Reply → Option Fault
failure null = some Fault.nil_reply
failure _ = none

abbrev is_nil : Fault → Bool
is_nil Fault.nil_reply = true
is_nil _ = false

abbrev run : M Db Abort Reply → M Db Fault Reply
run m d = ((m d).0, elim (m d).1 [ ok r ↦ ok r | error e ↦ error Fault.aborted ])

abbrev pub joined : Client Db Fault
joined = record {
  exec = run;
  as_int64 = number;
  to_array = elements;
  to_string = string;
  reply_error = failure;
  is_nil = is_nil;
}

pub joined-reaches : Reliable joined
joined-reaches = record {
  exec_ok = λ m d r h. rw h refl;
  as_int64_ok = λ n. refl;
  to_array_ok = λ rs. refl;
  to_string_ok = λ s. refl;
  okay_ok = refl;
  null_error = (Fault.nil_reply, refl, refl, refl);
}

-- One that does not reach the server.
abbrev pub down : Client Db Fault
down = record joined { exec = λ m d. (d, error Fault.unreachable) }
