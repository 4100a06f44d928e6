-- ===== src/Web/Sessions.antt =====
-- cmd/dscuss-web/controller/session.go, session_pool.go, sessions.go. A session stands in the pool
-- under its own ID, which never changes; what a handler makes of it is put back by `update`.
pub mod Opening
pub mod Knowing
use dscuss.Prelude.{
  ℕ, ◌+◌, ◌*◌, Bytes, bytes_eq, codes, Bool, true, false, not, ◌&&◌, any, find, select, ltb, List,
  [], ◌∷◌, ◌++◌, if◌then◌else◌, Option, none, some, Result, ok, err, fatal,
}
use dscuss.Entity.{Time, Duration, minute}

pub record Session : Type 0 where
  pub id : Bytes
  pub is_authenticated : Bool
  pub csrf_token : Bytes
  pub created_date : Time
  pub updated_date : Time

abbrev pub max_session_life : Duration
max_session_life = 200 * (60 * minute)

abbrev pub SessionPool : Type 0
SessionPool = List Session

abbrev pub has_id : Bytes → Session → Bool
has_id id s = bytes_eq s.id id

-- A session whose ID is in the pool already ends the process.
unfoldable pub add : SessionPool → Session → Result SessionPool
add ss s = if any (has_id s.id) ss then fatal else ok (ss ++ s ∷ [])

unfoldable pub load : SessionPool → Bytes → Option Session
load ss id = find (has_id id) ss

unfoldable pub remove_session : SessionPool → Bytes → SessionPool
remove_session ss id = select (λ s. not (bytes_eq s.id id)) ss

-- The loop of `removeExpiredSessions` over a copy of the pool; `now` has the time that is read for
-- each session.
unfoldable pub remove_expired : (Bytes → Time) → List Session → SessionPool → SessionPool
unfolding remove_session
remove_expired now [] ss = ss
remove_expired now (s ∷ copied) ss =
    remove_expired now copied
      (if ltb (s.updated_date + max_session_life) (now s.id) then remove_session ss s.id else ss)

unfoldable pub remove_expired_sessions : (Bytes → Time) → SessionPool → SessionPool
unfolding remove_expired
remove_expired_sessions now ss = remove_expired now ss ss

-- The session that a pointer into the pool has become.
unfoldable pub update : SessionPool → Session → SessionPool
update [] s = []
update (t ∷ ss) s = let rest = update ss s in if bytes_eq t.id s.id then s ∷ ss else t ∷ rest

-- `Authenticate`, of the owner's nickname and the password of the web client.
unfoldable pub authenticate : Bytes → Bytes → Session → Bytes → Bytes → Bool × Session
authenticate nickname password s user pass =
    if not (bytes_eq user nickname && bytes_eq pass password)
    then (false, s)
    else (true, record s { is_authenticated = true })

-- What a call of `OpenSession` reads: the clock, and the two random strings.
pub record Fresh : Type 0 where
  pub checked : Time
  pub touched : Time
  pub expiring : Bytes → Time
  pub created : Time
  pub updated : Time
  pub session_id : Bytes
  pub csrf_token : Bytes

pub record Cookie : Type 0 where
  pub name : Bytes
  pub value : Bytes
  pub http_only : Bool

pub record Open : Type 0 where
  pub session : Session
  pub pool : SessionPool
  pub cookies : List Cookie

abbrev pub new_session : Fresh → Session
new_session f = record {
  id = f.session_id;
  is_authenticated = false;
  csrf_token = f.csrf_token;
  created_date = f.created;
  updated_date = f.updated;
}

abbrev pub session_cookies : Session → List Cookie
session_cookies s =
    record { name = codes "sessionid"; value = s.id; http_only = true }
    ∷ record { name = codes "csrftoken"; value = s.csrf_token; http_only = false }
    ∷ []

abbrev pub added : Session → Result SessionPool → Result Open
added s (ok ss) = ok (record { session = s; pool = ss; cookies = session_cookies s })
added s (err e) = err e
added s fatal = fatal

unfoldable pub make_session : Fresh → SessionPool → Result Open
unfolding add remove_expired_sessions
make_session f ss =
    added (new_session f) (add (remove_expired_sessions f.expiring ss) (new_session f))

abbrev pub touch : Fresh → Session → Session
touch f s = record s { updated_date = f.touched }

unfoldable pub open_loaded : Fresh → SessionPool → Option Session → Result Open
unfolding make_session update
open_loaded f ss none = make_session f ss
open_loaded f ss (some s) =
    if ltb f.checked (s.updated_date + max_session_life)
    then ok (record { session = touch f s; pool = update ss (touch f s); cookies = [] })
    else make_session f ss

-- `OpenSession`; `sent` is the value of the cookie "sessionid", if there is one.
unfoldable pub open_session : Option Bytes → Fresh → SessionPool → Result Open
unfolding open_loaded load
open_session none f ss = make_session f ss
open_session (some id) f ss = open_loaded f ss (load ss id)

-- `CloseSession`; both cookies are set to the empty value.
unfoldable pub close_session : Option Bytes → SessionPool → SessionPool
unfolding remove_session
close_session none ss = ss
close_session (some id) ss = remove_session ss id
