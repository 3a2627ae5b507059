-- ===== src/Redis/Hashes.antt =====
-- A server with hashes that can always be reached, for running the models.
use ajah.Prelude.{
  ℕ, ◌+◌, ◌≡◌, refl, false, ◌&&◌, String, str_eq, List, [], ◌∷◌, Option, none, some, if◌then◌else◌,
  arith,
}
use ajah.Float.Scaled.{scaled}
use ajah.Redis.{Redis, IsReachable}
use ajah.Redis.Store.{Store, absent, server, server-IsReachable, holds-absent}
use ajah.Redis.Pipeline.{
  Command, rpush, hsetnx, hset_seen, hincrbyfloat, hincrby, expire, Answer, done, int_reply,
  float_reply, touches, IsSequential, IsKeyed,
}

pub record Contents : Type 0 where
  pub texts : Store
  pub ints : String → String → ℕ
  pub floats : String → String → ℕ

abbrev pub empty : Contents
empty = record { texts = λ k. absent; ints = λ k n. 0; floats = λ k n. 0 }

abbrev with_texts : Contents → Store → Contents
with_texts db s = record { texts = s; ints = db.ints; floats = db.floats }

-- A hash goes with its key.
abbrev without : String → (String → String → ℕ) → String → String → ℕ
without k field key name = if str_eq k key then 0 else field key name

abbrev pub hash_server : Redis
hash_server = record {
  Db = Contents;
  exists = λ k db. server.exists k db.texts;
  get = λ k db. server.get k db.texts;
  ttl = λ k db. server.ttl k db.texts;
  get_int = λ k db. server.get_int k db.texts;
  set = λ k v n db. (with_texts db (server.set k v n db.texts).0, (server.set k v n db.texts).1);
  del = λ k db. (
    record {
      texts = (server.del k db.texts).0;
      ints = without k db.ints;
      floats = without k db.floats;
    },
    (server.del k db.texts).1,
  );
  incr_expire = λ k n db.
      (with_texts db (server.incr_expire k n db.texts).0, (server.incr_expire k n db.texts).1);
}

pub hash_server-IsReachable : IsReachable hash_server
hash_server-IsReachable = record {
  holds = λ db k. server-IsReachable.holds db.texts k;
  counter = λ db k. server-IsReachable.counter db.texts k;
  expire_now = λ k db. with_texts db (server-IsReachable.expire_now k db.texts);
  exists_lem = λ k db. server-IsReachable.exists_lem k db.texts;
  get_int_lem = λ k db. server-IsReachable.get_int_lem k db.texts;
  get-set = λ k v n db. server-IsReachable.get-set k v n db.texts;
  holds-set = λ k v n db j. server-IsReachable.holds-set k v n db.texts j;
  counter-set = λ k v n db j e. server-IsReachable.counter-set k v n db.texts j e;
  holds-del = λ k db j. server-IsReachable.holds-del k db.texts j;
  counter-del = λ k db j. server-IsReachable.counter-del k db.texts j;
  incr_reply = λ k n db. server-IsReachable.incr_reply k n db.texts;
  holds-incr = λ k n db j. server-IsReachable.holds-incr k n db.texts j;
  counter-incr = λ k n db j. server-IsReachable.counter-incr k n db.texts j;
  holds-expire = λ k db j. server-IsReachable.holds-expire k db.texts j;
  counter-expire = λ k db j. server-IsReachable.counter-expire k db.texts j;
}

abbrev update : (String → String → ℕ) → String → String → ℕ → String → String → ℕ
update field k n x key name = if str_eq k key && str_eq n name then x else field key name

abbrev perform : Command scaled → Contents → Contents × Answer scaled
perform (rpush k v) db = (db, done)
perform (hsetnx k n v) db = (db, done)
perform (hset_seen k t x u) db = (db, done)
perform (hincrbyfloat k n x) db = (
  record { texts = db.texts; ints = db.ints; floats = update db.floats k n (db.floats k n + x) },
  float_reply (db.floats k n + x),
)
perform (hincrby k n x) db = (
  record { texts = db.texts; ints = update db.ints k n (db.ints k n + x); floats = db.floats },
  int_reply (db.ints k n + x),
)
perform (expire k n) db = (db, done)

abbrev answered :
    Answer scaled
    → Contents × Option (List (Answer scaled))
    → Contents × Option (List (Answer scaled))
answered a (db, none) = (db, none)
answered a (db, some answers) = (db, some (a ∷ answers))

abbrev pub perform_all : List (Command scaled) → Contents → Contents × Option (List (Answer scaled))
perform_all [] db = (db, some [])
perform_all (c ∷ cs) db = answered (perform c db).1 (perform_all cs (perform c db).0)

int_field-perform :
    (c : Command scaled) (k n : String) (db : Contents)
    → touches scaled c k n ≡ false
    → (perform c db).0.ints k n ≡ db.ints k n
unfolding touches
int_field-perform (rpush key v) k n db h = refl
int_field-perform (hsetnx key m v) k n db h = refl
int_field-perform (hset_seen key t x u) k n db h = refl
int_field-perform (hincrbyfloat key m x) k n db h = refl
int_field-perform (hincrby key m x) k n db h = ground arith
int_field-perform (expire key m) k n db h = refl

float_field-perform :
    (c : Command scaled) (k n : String) (db : Contents)
    → touches scaled c k n ≡ false
    → (perform c db).0.floats k n ≡ db.floats k n
unfolding touches
float_field-perform (rpush key v) k n db h = refl
float_field-perform (hsetnx key m v) k n db h = refl
float_field-perform (hset_seen key t x u) k n db h = refl
float_field-perform (hincrbyfloat key m x) k n db h = ground arith
float_field-perform (hincrby key m x) k n db h = refl
float_field-perform (expire key m) k n db h = refl

pub perform_all-IsSequential : IsSequential scaled Contents perform_all
perform_all-IsSequential = record {
  run = perform;
  int_field = λ db k n. db.ints k n;
  float_field = λ db k n. db.floats k n;
  exec-nil = λ db. refl;
  exec-cons = λ c cs db answers h. ground arith;
  run-hincrby = λ k n x db. refl;
  run-hincrbyfloat = λ k n x db. refl;
  int_field-run = int_field-perform;
  float_field-run = float_field-perform;
}

-- The empty server holds nothing.
pub holds-empty : (k : String) → hash_server-IsReachable.holds empty k ≡ false
unfolding hash_server-IsReachable
holds-empty k = holds-absent empty.texts k refl

pub hash_server-IsKeyed :
    IsKeyed scaled Contents perform_all perform_all-IsSequential hash_server.del
unfolding perform_all-IsSequential
hash_server-IsKeyed = record {
  int_field-del = λ k key n db h. ground arith;
  float_field-del = λ k key n db h. ground arith;
}
