-- ===== src/Tests/Sessions.antt =====
-- The session table at concrete conversations; an agent is a number here.
use dobby_ai.Base.{ℕ, ◌≡◌, refl, true, Option, none, some, arith, Bytes, codes, get_or, replicate}
use dobby_ai.Session.{
  Session, SessionManager, blank, session_max, session_key, session_manager_create, find_slot,
  evict_locked, session_get_or_create, session_evict_stale, is_stale,
}
use dobby_ai.Session.Probe.{Found, find_slot-Found}
use dobby_ai.Session.Evict.{IsValid, create-IsValid, evict_live}
use dobby_ai.Session.Isolation.{get_or_create-IsValid, get_or_create_keeps}
use dobby_ai.Session.Keys.{session_key_inj}

abbrev empty_table : SessionManager ℕ
empty_table = session_manager_create 3600

abbrev cli : Bytes
cli = codes "cli"

abbrev web : Bytes
web = codes "web"

abbrev opened : Option ℕ × SessionManager ℕ
opened = session_get_or_create empty_table cli (codes "1") (some 7) 100

abbrev or_zero : Option ℕ → ℕ
or_zero none = 0
or_zero (some n) = n

opened-IsValid : IsValid opened.1
opened-IsValid =
    get_or_create-IsValid empty_table cli (codes "1") (some 7) 100 (create-IsValid 3600)

find_slot-Found_example : Found opened.1.slots (codes "cli:1") (find_slot opened.1 (codes "cli:1"))
find_slot-Found_example = find_slot-Found opened.1 (codes "cli:1")

abbrev place : ℕ
place = or_zero opened.0

evict_live_example :
    get_or (evict_locked opened.1 200).1.slots place blank ≡ get_or opened.1.slots place blank
unfolding session_manager_create session_get_or_create find_slot dobby_ai.Session.find_from
    dobby_ai.Session.djb2 session_key dobby_ai.Session.open_slot
evict_live_example = evict_live opened.1 200 place refl

get_or_create-IsValid_example : IsValid opened.1
get_or_create-IsValid_example =
    get_or_create-IsValid empty_table cli (codes "1") (some 7) 100 (create-IsValid 3600)

get_or_create_keeps_example :
    get_or (session_get_or_create opened.1 web (codes "2") (some 8) 200).1.slots place blank
    ≡ get_or opened.1.slots place blank
unfolding session_manager_create session_get_or_create find_slot dobby_ai.Session.find_from
    dobby_ai.Session.djb2 session_key dobby_ai.Session.open_slot
get_or_create_keeps_example =
    get_or_create_keeps opened.1 web (codes "2") (some 8) 200 place opened-IsValid refl refl

abbrev full_table : SessionManager ℕ
full_table = record {
  slots =
      replicate session_max
        (record { key = codes "x"; agent = some 1; last_active = 50; in_use = true });
  ttl_seconds = 3600;
  count = session_max;
}

session_key_inj_example : (web ≡ web) × (codes "a:b" ≡ codes "a:b")
session_key_inj_example =
    session_key_inj web web (codes "a:b") (codes "a:b") (refl, (refl, (refl, tt)))
      (refl, (refl, (refl, tt))) (omega arith) (omega arith) refl
