-- ===== src/Redis.antt =====
-- The Redis commands that the queue sends (pichost-worker/src/queue.rs), and what Redis documents
-- of them: `exec` is the documented effect of a command that succeeds on the keys of the
-- database. The server itself is a parameter, a `Server`.
use pichost.Common.{
  ℕ, String, List, [], ◌∷◌, Option, none, some, Result, ok, err, ◌≡◌, ◌⊎◌, if◌then◌else◌, ◌=ₛ◌,
  ◌&&◌,
}

pub data Command : Type 0 where
  -- a connection from the pool
  connect : Command
  hset : (key field value : String) → Command
  hget : (key field : String) → Command
  lpush : (key value : String) → Command
  -- `LREM key 1 value`
  lrem : (key value : String) → Command
  -- `LRANGE key 0 -1`
  lrange : (key : String) → Command
  brpoplpush : (source destination : String) (timeout : ℕ) → Command

-- An error of the client library is its message.
abbrev pub Reply : Command → Type 0
Reply connect = Result String (Unit {0})
Reply (hset k f v) = Result String (Unit {0})
Reply (hget k f) = Result String (Option String)
Reply (lpush k v) = Result String (Unit {0})
Reply (lrem k v) = Result String (Unit {0})
Reply (lrange k) = Result String (List String)
Reply (brpoplpush a b t) = Result String (Option String)

-- The keys of the database. A list's head is its left end.
pub record Store : Type 0 where
  pub hash : String → String → Option String
  pub list : String → List String

abbrev pub put_field : String → String → String → Store → Store
put_field k f v s = record s { hash = λ j g. if f =ₛ g && k =ₛ j then some v else s.hash j g }

abbrev pub put_list : String → List String → Store → Store
put_list k xs s = record s { list = λ j. if k =ₛ j then xs else s.list j }

unfoldable pub erase_first : String → List String → List String
erase_first v [] = []
erase_first v (x ∷ xs) = if x =ₛ v then xs else x ∷ erase_first v xs

abbrev pub snoc_view {ℓ} : {A : Type ℓ} → A → Option (List A × A) → Option (List A × A)
snoc_view x none = some ([], x)
snoc_view x (some (ys, y)) = some (x ∷ ys, y)

-- A list without its right end, and that end.
unfoldable pub pop_last {ℓ} : {A : Type ℓ} → List A → Option (List A × A)
pop_last [] = none
pop_last (x ∷ xs) = snoc_view x (pop_last xs)

-- On an empty source the command gives up after its timeout.
abbrev pub rotate :
    String → String → Store → Option (List String × String) → Result String (Option String) × Store
rotate a b s none = (ok none, s)
rotate a b s (some (rest, x)) =
    (ok (some x), put_list b (x ∷ (put_list a rest s).list b) (put_list a rest s))

unfoldable pub exec : (c : Command) → Store → Reply c × Store
exec connect s = (ok tt, s)
exec (hset k f v) s = (ok tt, put_field k f v s)
exec (hget k f) s = (ok (s.hash k f), s)
exec (lpush k v) s = (ok tt, put_list k (v ∷ s.list k) s)
exec (lrem k v) s = (ok tt, put_list k (erase_first v (s.list k)) s)
exec (lrange k) s = (ok (s.list k), s)
exec (brpoplpush a b t) s = rotate a b s (pop_last (s.list a))

abbrev pub failed : (c : Command) → String → Reply c
failed connect e = err e
failed (hset k f v) e = err e
failed (hget k f) e = err e
failed (lpush k v) e = err e
failed (lrem k v) e = err e
failed (lrange k) e = err e
failed (brpoplpush a b t) e = err e

-- A command is carried out, or its caller gets an error; in that case it may still have been
-- carried out, with its answer lost.
abbrev pub Answers : (c : Command) → Store → Reply c → Store → Type 0
Answers c s r s' =
    ((r ≡ (exec c s).0) × (s' ≡ (exec c s).1))
    ⊎ ((e : String) × (r ≡ failed c e) × ((s' ≡ s) ⊎ (s' ≡ (exec c s).1)))

pub record Server : Type 1 where
  pub Db : Type 0
  pub view : Db → Store
  pub handle : (c : Command) → Db → Reply c × Db
  pub answers : (c : Command) (d : Db) → Answers c (view d) (handle c d).0 (view (handle c d).1)

-- A server that is up refuses nothing.
abbrev pub IsUp : Server → Type 0
IsUp S =
    (c : Command) (d : S.Db)
    → ((S.handle c d).0 ≡ (exec c (S.view d)).0) × (S.view (S.handle c d).1 ≡ (exec c (S.view d)).1)
