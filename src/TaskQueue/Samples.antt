-- ===== src/TaskQueue/Samples.antt =====
-- A text form for the queue's records, a server that carries out every command, and a few tasks.
use Prim.Native.Char.{Char, code}
use pichost.Common.{
  ◌+◌, ℕ, zero, suc, ◌≡◌, refl, ap, String, [], Option, none, some, Result, ok, err, ◌==◌,
  if◌then◌else◌, inl,
}
use pichost.Redis.{Store, Server, IsUp, exec}
use pichost.TaskQueue.{Uuid, TaskPayload, Codec}
use pichost.TaskQueue.Jobs.{Jobs}

-- A number is as many `a`, a text has an `a` before each character, and a `b` ends both.
unfoldable pub write_num : ℕ → String → String
write_num zero rest = String.◌∷◌ "b" rest
write_num (suc n) rest = String.◌∷◌ "a" (write_num n rest)

abbrev pub bump : Option (ℕ × String) → Option (ℕ × String)
bump none = none
bump (some (n, s)) = some (suc n, s)

unfoldable pub read_num : String → Option (ℕ × String)
read_num String.[] = none
read_num (String.◌∷◌ c s) = if code c == b'a' then bump (read_num s) else some (0, s)

pub read-write_num : (n : ℕ) (rest : String) → read_num (write_num n rest) ≡ some (n, rest)
unfolding read_num write_num
read-write_num zero rest = refl
read-write_num (suc n) rest = ap bump (read-write_num n rest)

unfoldable pub write_text : String → String → String
write_text String.[] rest = String.◌∷◌ "b" rest
write_text (String.◌∷◌ c s) rest = String.◌∷◌ "a" (String.◌∷◌ c (write_text s rest))

abbrev pub put_char : Char → Option (String × String) → Option (String × String)
put_char c none = none
put_char c (some (t, s)) = some (String.◌∷◌ c t, s)

unfoldable pub read_text : String → Option (String × String)
read_text String.[] = none
read_text (String.◌∷◌ c String.[]) = if code c == b'a' then none else some (String.[], String.[])
read_text (String.◌∷◌ c (String.◌∷◌ d s)) =
    let rest = read_text s in
    if code c == b'a' then put_char d rest else some (String.[], String.◌∷◌ d s)

pub read-write_text : (t rest : String) → read_text (write_text t rest) ≡ some (t, rest)
unfolding read_text write_text
read-write_text String.[] String.[] = refl
read-write_text String.[] (String.◌∷◌ d s) = refl
read-write_text (String.◌∷◌ c t) rest = ap (put_char c) (read-write_text t rest)

infixl 5 ◌>>=◌
abbrev pub ◌>>=◌ :
    {A B : Type 0} → Option (A × String) → (A × String → Result String B) → Result String B
none >>= f = err "too short"
some a >>= f = f a

unfoldable pub write_option : Option ℕ → String → String
unfolding write_num
write_option none rest = write_num 0 rest
write_option (some n) rest = write_num (suc n) rest

abbrev pub option_of : ℕ → Option ℕ
option_of zero = none
option_of (suc n) = some n

unfoldable pub encode : TaskPayload → Result String String
unfolding write_num write_text
encode t = ok (
    write_num t.task_id (
      write_num t.image_id (
        write_num t.user_id (
          write_text t.storage_backend (
            write_option t.storage_config_id (
              write_text t.storage_backend_name (
                write_text t.source_key (
                  write_text t.source_mime
                    (write_num t.retry_count (write_num t.max_retries ""))))))))))

unfoldable pub decode : String → Result String TaskPayload
unfolding read_num read_text
decode s0 = do
  (task_id, s1) ← read_num s0
  (image_id, s2) ← read_num s1
  (user_id, s3) ← read_num s2
  (storage_backend, s4) ← read_text s3
  (config, s5) ← read_num s4
  (storage_backend_name, s6) ← read_text s5
  (source_key, s7) ← read_text s6
  (source_mime, s8) ← read_text s7
  (retry_count, s9) ← read_num s8
  (max_retries, s10) ← read_num s9
  ok (record {
    task_id = task_id;
    image_id = image_id;
    user_id = user_id;
    storage_backend = storage_backend;
    storage_config_id = option_of config;
    storage_backend_name = storage_backend_name;
    source_key = source_key;
    source_mime = source_mime;
    retry_count = retry_count;
    max_retries = max_retries;
  })

pub read-write_option :
    (o : Option ℕ) (rest : String)
    → (n : ℕ) × (read_num (write_option o rest) ≡ some (n, rest)) × (option_of n ≡ o)
unfolding write_option
read-write_option none rest = (0, read-write_num 0 rest, refl)
read-write_option (some n) rest = (suc n, read-write_num (suc n) rest, refl)

pub decode-encode : (t : TaskPayload) → (j : String) × (encode t ≡ ok j) × (decode j ≡ ok t)
unfolding encode decode
decode-encode t =
    let (n, e, back) = read-write_option t.storage_config_id (
      write_text t.storage_backend_name (
        write_text t.source_key
          (write_text t.source_mime (write_num t.retry_count (write_num t.max_retries ""))))) in
    (_, refl, simp (read-write_num, read-write_text, e, back) refl)

abbrev pub uuid_of : Option (ℕ × String) → Result String Uuid
uuid_of none = err "not a uuid"
uuid_of (some (n, s)) = ok n

abbrev pub time_of : Option (ℕ × String) → Option ℕ
time_of none = none
time_of (some (n, s)) = some n

abbrev pub codec : Codec
codec = record {
  show_uuid = λ u. write_num u "";
  parse_uuid = λ s. uuid_of (read_num s);
  parse-show = λ u. ap uuid_of (read-write_num u "");
  show_time = λ t. write_num t "";
  parse_time = λ s. time_of (read_num s);
  parse-show_time = λ t. ap time_of (read-write_num t "");
  encode = encode;
  decode = decode;
  decode-encode = decode-encode;
}

-- A server that carries out every command.
abbrev pub server : Server
server = record { Db = Store; view = λ s. s; handle = exec; answers = λ c s. inl (refl, refl) }

abbrev pub server_is_up : IsUp server
server_is_up = λ c s. (refl, refl)

abbrev pub job : ℕ → TaskPayload
job n = record {
  task_id = n;
  image_id = n + 10;
  user_id = 1;
  storage_backend = "local";
  storage_config_id = some 4;
  storage_backend_name = "disk";
  source_key = "1/abc";
  source_mime = "image/png";
  retry_count = 0;
  max_retries = 3;
}

abbrev pub nothing : Store
nothing = record { hash = λ k f. none; list = λ k. [] }

abbrev pub idle : Jobs
idle = record { pending = []; processing = []; dead = [] }
