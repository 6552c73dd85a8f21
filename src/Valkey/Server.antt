-- ===== src/Valkey/Server.antt =====
-- The commands of the Valkey server and the calls of its client library, as a parameter.
-- A key is named by its suffix, since the prefix is the same for all; keys that hold different types are
-- of different types here. A command that reads is a function of the database, and one that writes
-- takes it to the next.
use gowait.Prelude.{
  ℕ, ◌≡◌, String, Bool, true, false, Option, none, some, List, [], ℤ, pos, ◌+ℤ◌, ◌≤ℤ◌,
  if◌then◌else◌, length, str_eq,
}
use gowait.Results.{Result, ok, error, M}
use gowait.GoMap
use gowait.Valkey.SortedSets.{SortedSet, place, rank, below, first, behind}

pub data SetKey : Type 0 where
  order seen active : SetKey

pub data HashKey : Type 0 where
  admitted enqueued : HashKey

pub data TextKey : Type 0 where
  avg capacity : TextKey
  lock : String → TextKey

abbrev pub Bytes : Type 0
Bytes = List ℕ

mutual
  pub data Reply : Type 0 where
    null okay : Reply
    int : ℤ → Reply
    text : Bytes → Reply
    array : Replies → Reply

  pub data Replies : Type 0 where
    nil : Replies
    cons : Reply → Replies → Replies

-- A script that a Lua error stops.
pub data Abort : Type 0 where
  lua_error : Abort

abbrev pub same_key : SetKey → SetKey → Bool
same_key order order = true
same_key seen seen = true
same_key active active = true
same_key _ _ = false

-- What the laws speak of: the sorted sets, and the counter under `seq`.
pub record Contents : Type 0 where
  pub sorted : SetKey → SortedSet
  pub counter : ℤ

-- One sorted set changed.
abbrev pub with_set : SetKey → SortedSet → Contents → Contents
with_set k l c = record c { sorted = λ j. if same_key k j then l else c.sorted j }

pub record Commands (DB F : Type 0) : Type 0 where
  pub contents : DB → Contents
  pub zscore : SetKey → String → DB → Option ℤ
  pub zcard : SetKey → DB → ℕ
  pub zrank : SetKey → String → DB → Option ℕ
  -- ZRANGEBYSCORE key -inf (x
  pub zbelow : SetKey → ℤ → DB → List String
  pub zadd : SetKey → ℤ → String → DB → DB
  pub zrem : SetKey → String → DB → DB
  -- the member that is popped, if there is one
  pub zpopmin : SetKey → DB → DB × Option String
  pub hget : HashKey → String → DB → Option ℤ
  pub hset : HashKey → String → ℤ → DB → DB
  pub hdel : HashKey → String → DB → DB
  -- INCR of the key `seq`
  pub incr : DB → DB × ℤ
  pub get : TextKey → DB → Option Bytes
  pub set : TextKey → Bytes → DB → DB
  -- SET key value NX PX ttl, in milliseconds: whether it was set
  pub set_nx : TextKey → Bytes → ℤ → DB → DB × Bool
  pub del_set : SetKey → DB → DB
  pub del_hash : HashKey → DB → DB
  -- tonumber and tostring of Lua, on floats
  pub tonumber : Bytes → Option F
  pub tostring : F → Bytes

-- What the server documents of them.
pub record Laws {DB F : Type 0} (v : Commands DB F) : Type 0 where
  pub zscore_lem :
      (k : SetKey) (i : String) (d : DB) → v.zscore k i d ≡ GoMap.lookup i ((v.contents d).sorted k)
  pub zcard_lem : (k : SetKey) (d : DB) → v.zcard k d ≡ length ((v.contents d).sorted k)
  pub zrank_lem :
      (k : SetKey) (i : String) (d : DB) → v.zrank k i d ≡ rank i ((v.contents d).sorted k)
  pub zbelow_lem :
      (k : SetKey) (x : ℤ) (d : DB) → v.zbelow k x d ≡ below x ((v.contents d).sorted k)
  pub zadd_lem :
      (k : SetKey) (x : ℤ) (i : String) (d : DB)
      → v.contents (v.zadd k x i d)
        ≡ with_set k (place x i ((v.contents d).sorted k)) (v.contents d)
  pub zrem_lem :
      (k : SetKey) (i : String) (d : DB)
      → v.contents (v.zrem k i d)
        ≡ with_set k (GoMap.remove i ((v.contents d).sorted k)) (v.contents d)
  pub zpopmin_lem :
      (k : SetKey) (d : DB)
      → ((v.zpopmin k d).1 ≡ first ((v.contents d).sorted k))
        × (v.contents (v.zpopmin k d).0
            ≡ with_set k (behind ((v.contents d).sorted k)) (v.contents d))
  pub hset_lem :
      (k : HashKey) (i : String) (x : ℤ) (d : DB) → v.contents (v.hset k i x d) ≡ v.contents d
  pub hdel_lem : (k : HashKey) (i : String) (d : DB) → v.contents (v.hdel k i d) ≡ v.contents d
  -- a field of a hash stays until it is written or deleted
  pub hget-zadd :
      (h : HashKey) (j : String) (k : SetKey) (x : ℤ) (i : String) (d : DB)
      → v.hget h j (v.zadd k x i d) ≡ v.hget h j d
  pub hget-zrem :
      (h : HashKey) (j : String) (k : SetKey) (i : String) (d : DB)
      → v.hget h j (v.zrem k i d) ≡ v.hget h j d
  pub hget-zpopmin :
      (h : HashKey) (j : String) (k : SetKey) (d : DB) → v.hget h j (v.zpopmin k d).0 ≡ v.hget h j d
  pub hget-set :
      (h : HashKey) (j : String) (k : TextKey) (s : Bytes) (d : DB)
      → v.hget h j (v.set k s d) ≡ v.hget h j d
  pub hget-hset :
      (j i : String) (x : ℤ) (d : DB)
      → v.hget enqueued j (v.hset admitted i x d) ≡ v.hget enqueued j d
  pub hget-hdel :
      (j i : String) (d : DB) → v.hget enqueued j (v.hdel admitted i d) ≡ v.hget enqueued j d
  pub hget-hdel_other :
      (j i : String) (d : DB)
      → str_eq i j ≡ false
      → v.hget enqueued j (v.hdel enqueued i d) ≡ v.hget enqueued j d
  pub incr_lem :
      (d : DB)
      → ((v.incr d).1 ≡ (v.contents d).counter +ℤ pos 1)
        × (v.contents (v.incr d).0
            ≡ record (v.contents d) { counter = (v.contents d).counter +ℤ pos 1 })
  pub set_lem : (k : TextKey) (s : Bytes) (d : DB) → v.contents (v.set k s d) ≡ v.contents d
  pub get-set : (k : TextKey) (s : Bytes) (d : DB) → v.get k (v.set k s d) ≡ some s
  -- a key is set once, with a time to live that is not 0
  pub set_nx_new :
      (k : TextKey) (s : Bytes) (ttl : ℤ) (d : DB)
      → pos 1 ≤ℤ ttl
      → v.get k d ≡ none
      → ((v.set_nx k s ttl d).1 ≡ true) × (v.get k (v.set_nx k s ttl d).0 ≡ some s)
  pub set_nx_held :
      (k : TextKey) (s t : Bytes) (ttl : ℤ) (d : DB)
      → pos 1 ≤ℤ ttl
      → v.get k d ≡ some t
      → v.set_nx k s ttl d ≡ (d, false)
  pub set_nx_lem :
      (k : TextKey) (s : Bytes) (ttl : ℤ) (d : DB)
      → v.contents (v.set_nx k s ttl d).0 ≡ v.contents d
  pub del_set_lem :
      (k : SetKey) (d : DB) → v.contents (v.del_set k d) ≡ with_set k [] (v.contents d)
  pub del_hash_lem : (k : HashKey) (d : DB) → v.contents (v.del_hash k d) ≡ v.contents d

-- The client library: it runs a script or a command as one step of the server, and reads replies. A
-- nil reply is an error of its own kind.
pub record Client (DB E : Type 0) : Type 0 where
  pub exec : M DB Abort Reply → M DB E Reply
  pub as_int64 : Reply → Result E ℤ
  pub to_array : Reply → Result E Replies
  pub to_string : Reply → Result E Bytes
  -- the error of a reply that is one
  pub reply_error : Reply → Option E
  -- valkey.IsValkeyNil
  pub is_nil : E → Bool

-- A client that reaches its server, and reads a reply of the type that is asked for.
pub record Reliable {DB E : Type 0} (cl : Client DB E) : Type 0 where
  pub exec_ok :
      (m : M DB Abort Reply) (d : DB) (r : Reply) → (m d).1 ≡ ok r → cl.exec m d ≡ ((m d).0, ok r)
  pub as_int64_ok : (n : ℤ) → cl.as_int64 (int n) ≡ ok n
  pub to_array_ok : (rs : Replies) → cl.to_array (array rs) ≡ ok rs
  pub to_string_ok : (s : Bytes) → cl.to_string (text s) ≡ ok s
  pub okay_ok : cl.reply_error okay ≡ none
  -- of nil, both as the reply of SET and as a text that is missing
  pub null_error :
      (e : E) × (cl.reply_error null ≡ some e)
      × (cl.to_string null ≡ error e)
      × (cl.is_nil e ≡ true)
