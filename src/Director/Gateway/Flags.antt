-- ===== src/Director/Gateway/Flags.antt =====
-- Flags as the executors see them.
use netunicorn.Common.{
  String, true, ◌&&◌, Option, none, some, List, [], ◌∷◌, ◌≡◌, refl, arith, ◌==◌, eq_iff, eq_refl,
  or_else, if◌then◌else◌,
}
use netunicorn.Common.Int.{ℤ, pos, negsuc, suc_ℤ, pred_ℤ}
use netunicorn.Director.Db.{Db, FlagRow, select_one, upsert}
use netunicorn.Director.Gateway.{
  FlagValues, Answer, is_flag, get_flag_value, both_missing, set_flag_value, add_to_flag,
  increment_int_flag_value, decrement_int_flag_value,
}

abbrev written : FlagRow → (FlagRow → FlagRow) → Option FlagRow → Option FlagRow
written new f none = some new
written new f (some r) = some (f r)

-- The row of a flag after the row of a flag is written.
select_one-upsert :
    (e k e' k' : String) (new : FlagRow) (f : FlagRow → FlagRow) (rs : List FlagRow)
    → is_flag e k new ≡ true
    → ((r : FlagRow) → (f r).experiment_id ≡ r.experiment_id)
    → ((r : FlagRow) → (f r).key ≡ r.key)
    → select_one (is_flag e' k') (upsert (is_flag e k) new f rs) ≡ (
        if e == e' && k == k'
        then written new f (select_one (is_flag e k) rs)
        else select_one (is_flag e' k') rs)
unfolding select_one upsert
select_one-upsert e k e' k' new f [] h he hk = ground (
  arith,
  h,
  eq_iff new.experiment_id e,
  eq_iff new.key k,
  eq_iff e e',
  eq_iff k k',
  eq_iff new.experiment_id e',
  eq_iff new.key k',
)
select_one-upsert e k e' k' new f (r ∷ rs) h he hk = ground (
  arith,
  he r,
  hk r,
  select_one-upsert e k e' k' new f rs h he hk,
  eq_iff r.experiment_id e,
  eq_iff r.key k,
  eq_iff e e',
  eq_iff k k',
  eq_iff r.experiment_id e',
  eq_iff r.key k',
)

abbrev pub stored_flag : FlagValues → FlagValues
stored_flag v = record v { int_value = some (or_else v.int_value (pos 0)) }

-- A flag that is set reads back as it was set, with 0 for a missing integer, and no other flag
-- changes; a request with neither value changes nothing.
pub get-set_flag :
    (e k e' k' : String) (v : FlagValues) (db : Db)
    → get_flag_value e' k' (set_flag_value e k v db).1 ≡ (
        if both_missing v
        then get_flag_value e' k' db
        else if e == e' && k == k'
        then record { status_code = 200; body = some (stored_flag v) }
        else get_flag_value e' k' db)
unfolding get_flag_value set_flag_value
get-set_flag e k e' k' v db = ground (
  arith,
  select_one-upsert e k e' k'
      (record {
        experiment_id = e;
        key = k;
        text_value = v.text_value;
        int_value = or_else v.int_value (pos 0);
      })
      (λ (r : FlagRow). record r {
        text_value = v.text_value;
        int_value = or_else v.int_value (pos 0);
      })
      db.flags (ground (arith, eq_refl e, eq_refl k)) (λ r. refl) (λ r. refl),
)

-- The integer of a flag, with 0 for a flag that is not there.
abbrev pub int_of : Answer FlagValues → ℤ
int_of a = elim a.body [ none ↦ pos 0 | some v ↦ or_else v.int_value (pos 0) ]

get-add :
    (first : ℤ) (f : ℤ → ℤ) (e k e' k' : String) (db : Db)
    → first ≡ f (pos 0)
    → int_of (get_flag_value e' k' (add_to_flag first f e k db)) ≡ (
        if e == e' && k == k'
        then f (int_of (get_flag_value e' k' db))
        else int_of (get_flag_value e' k' db))
unfolding get_flag_value
get-add first f e k e' k' db h = ground (
  arith,
  h,
  eq_iff e e',
  eq_iff k k',
  select_one-upsert e k e' k'
      (record { experiment_id = e; key = k; text_value = none; int_value = first })
      (λ (r : FlagRow). record r { int_value = f r.int_value }) db.flags
      (ground (arith, eq_refl e, eq_refl k)) (λ r. refl) (λ r. refl),
)

-- An increment adds one to the integer of its flag, which counts from 0 if the flag is new, and
-- leaves every other flag's integer as it is.
pub int_of-increment :
    (e k e' k' : String) (db : Db)
    → int_of (get_flag_value e' k' (increment_int_flag_value e k db)) ≡ (
        if e == e' && k == k'
        then suc_ℤ (int_of (get_flag_value e' k' db))
        else int_of (get_flag_value e' k' db))
unfolding increment_int_flag_value
int_of-increment e k e' k' db = get-add (pos 1) suc_ℤ e k e' k' db refl

pub int_of-decrement :
    (e k e' k' : String) (db : Db)
    → int_of (get_flag_value e' k' (decrement_int_flag_value e k db)) ≡ (
        if e == e' && k == k'
        then pred_ℤ (int_of (get_flag_value e' k' db))
        else int_of (get_flag_value e' k' db))
unfolding decrement_int_flag_value
int_of-decrement e k e' k' db = get-add (negsuc 0) pred_ℤ e k e' k' db refl

pred_ℤ-suc_ℤ : (i : ℤ) → pred_ℤ (suc_ℤ i) ≡ i
pred_ℤ-suc_ℤ i = ground arith

-- A decrement takes an increment back, for the integers of all flags.
pub decrement-increment :
    (e k e' k' : String) (db : Db)
    → int_of (get_flag_value e' k' (decrement_int_flag_value e k (increment_int_flag_value e k db)))
      ≡ int_of (get_flag_value e' k' db)
decrement-increment e k e' k' db = ground (
  arith,
  int_of-decrement e k e' k' (increment_int_flag_value e k db),
  int_of-increment e k e' k' db,
  pred_ℤ-suc_ℤ (int_of (get_flag_value e' k' db)),
)
