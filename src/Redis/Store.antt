-- ===== src/Redis/Store.antt =====
-- A server that can always be reached, for running the models: each key holds a number or a text.
use ajah.Prelude.{
  ◌≡◌, eq_iff, [], ℕ, suc, refl, Bool, true, false, String, str_eq, Option, none, some,
  if◌then◌else◌, arith,
}
use ajah.Text.{Bytes}
use ajah.Redis.{Redis, IsReachable}

pub data Value : Type 0 where
  absent : Value
  text : Bytes → Value
  number : ℕ → Value

abbrev pub Store : Type 0
Store = String → Value

abbrev update : String → Value → Store → Store
update k v db j = if str_eq k j then v else db j

abbrev present : Value → Bool
present absent = false
present (text s) = true
present (number n) = true

abbrev amount : Value → ℕ
amount absent = 0
amount (text s) = 0
amount (number n) = n

abbrev content : Value → Option Bytes
content absent = none
content (text s) = some s
content (number n) = some []

abbrev pub server : Redis
server = record {
  Db = Store;
  exists = λ k db. some (present (db k));
  get = λ k db. some (content (db k));
  ttl = λ k db. 0;
  get_int = λ k db. amount (db k);
  set = λ k v n db. (update k (text v) db, some tt);
  del = λ k db. (update k absent db, some tt);
  incr_expire = λ k n db. (update k (number (suc (amount (db k)))) db, some (suc (amount (db k))));
}

pub server-IsReachable : IsReachable server
server-IsReachable = record {
  holds = λ db k. present (db k);
  counter = λ db k. amount (db k);
  expire_now = λ k db. update k absent db;
  exists_lem = λ k db. refl;
  get_int_lem = λ k db. refl;
  get-set = λ k v n db. ground (arith, eq_iff k k);
  holds-set = λ k v n db j. ground arith;
  counter-set = λ k v n db j e. ground arith;
  holds-del = λ k db j. ground arith;
  counter-del = λ k db j. ground arith;
  incr_reply = λ k n db. refl;
  holds-incr = λ k n db j. ground arith;
  counter-incr = λ k n db j. ground arith;
  holds-expire = λ k db j. ground arith;
  counter-expire = λ k db j. ground arith;
}

pub holds-absent : (db : Store) (k : String) → db k ≡ absent → server-IsReachable.holds db k ≡ false
unfolding server-IsReachable
holds-absent db k h = ground arith
