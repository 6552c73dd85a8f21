-- ===== src/Valkey/Connection.antt =====
-- New and NewWithClient of internal/store/valkeystore/valkeystore.go: the connection, and the names of the
-- keys under a prefix. The options and the clients of the client library are parameters.
use gowait.Prelude.{
  ◌≡◌, refl, sym, ap, ◌∙◌, String, Option, none, some, [], ◌∷◌, ◌++◌, drop, length, if◌then◌else◌,
}
use mathlib.Core.List.{append_assoc}
use gowait.Ticket.{Bytes, equal}
use gowait.Server.Http.{bytes}

pub record Names : Type 0 where
  pub order : Bytes
  pub seen : Bytes
  pub active : Bytes
  pub admitted : Bytes
  pub enqueued : Bytes
  pub avg : Bytes
  pub seq : Bytes
  pub capacity_key : Bytes
  pub lock_prefix : Bytes

-- NewWithClient, but for the client
unfoldable pub new_with_client : Bytes → Names
new_with_client prefix = record {
  order = prefix ++ bytes "order";
  seen = prefix ++ bytes "seen";
  active = prefix ++ bytes "active";
  admitted = prefix ++ bytes "admitted";
  enqueued = prefix ++ bytes "enqueued";
  avg = prefix ++ bytes "avg";
  seq = prefix ++ bytes "seq";
  capacity_key = prefix ++ bytes "capacity";
  lock_prefix = prefix ++ bytes "lock:";
}

-- New, where an address that is no URL is taken as host and port.
module _ {O C : Type 0} (parse_url : String → Option O) (host_port : String → O)
    (new_client : O → Option C) where
  unfoldable pub options : String → O
  options url = elim (parse_url url) [ none ↦ host_port url | some o ↦ o ]

  unfoldable pub new : String → Bytes → Option (C × Names)
  unfolding options new_with_client
  new url prefix = elim (new_client (options url)) [
    | none ↦ none
    | some c ↦ some (c, new_with_client prefix)
  ]

-- What the store keeps under a key.
pub data Key : Type 0 where
  order seen active admitted enqueued avg seq capacity : Key
  lock : Bytes → Key

unfoldable pub key_name : Names → Key → Bytes
key_name names order = names.order
key_name names seen = names.seen
key_name names active = names.active
key_name names admitted = names.admitted
key_name names enqueued = names.enqueued
key_name names avg = names.avg
key_name names seq = names.seq
key_name names capacity = names.capacity_key
-- s.lockPrefix + name
key_name names (lock name) = names.lock_prefix ++ name

-- The key of a name without its prefix.
key_of : Bytes → Option Key
key_of s =
    if equal s (bytes "order")
    then some order
    else if equal s (bytes "seen")
    then some seen
    else if equal s (bytes "active")
    then some active
    else if equal s (bytes "admitted")
    then some admitted
    else if equal s (bytes "enqueued")
    then some enqueued
    else if equal s (bytes "avg")
    then some avg
    else if equal s (bytes "seq")
    then some seq
    else if equal s (bytes "capacity")
    then some capacity
    else some (lock (drop 5 s))

drop_append : (p s : Bytes) → drop (length p) (p ++ s) ≡ s
drop_append [] s = refl
drop_append (c ∷ p) s = drop_append p s

key_of-key_name :
    (prefix : Bytes) (k : Key)
    → key_of (drop (length prefix) (key_name (new_with_client prefix) k)) ≡ some k
unfolding key_name new_with_client key_of equal
key_of-key_name prefix order = ap key_of (drop_append prefix (bytes "order"))
key_of-key_name prefix seen = ap key_of (drop_append prefix (bytes "seen"))
key_of-key_name prefix active = ap key_of (drop_append prefix (bytes "active"))
key_of-key_name prefix admitted = ap key_of (drop_append prefix (bytes "admitted"))
key_of-key_name prefix enqueued = ap key_of (drop_append prefix (bytes "enqueued"))
key_of-key_name prefix avg = ap key_of (drop_append prefix (bytes "avg"))
key_of-key_name prefix seq = ap key_of (drop_append prefix (bytes "seq"))
key_of-key_name prefix capacity = ap key_of (drop_append prefix (bytes "capacity"))
key_of-key_name prefix (lock name) =
    ap (λ s. key_of (drop (length prefix) s)) (append_assoc prefix (bytes "lock:") name)
    ∙ ap key_of (drop_append prefix (bytes "lock:" ++ name))

-- Under any prefix two keys with the same name are the same key, whatever the names of locks.
pub key_name-injective :
    (prefix : Bytes) (j k : Key)
    → key_name (new_with_client prefix) j ≡ key_name (new_with_client prefix) k
    → j ≡ k
key_name-injective prefix j k e =
    let same : some j ≡ some k =
      sym (key_of-key_name prefix j)
      ∙ ap (λ s. key_of (drop (length prefix) s)) e
      ∙ key_of-key_name prefix k in
    cc
