-- ===== src/Web/Acting.antt =====
-- The steps of a handler, for cmd/dscuss-web/controller/: a handler changes the process and the
-- session, writes replies, and may return or panic before its end.
use dscuss.Peer.Machine.{Peer}
use dscuss.Prelude.{
  ℕ, ltb, ◌==◌, Bytes, Bool, true, false, List, [], ◌∷◌, ◌++◌, if◌then◌else◌, Option, none, some,
  Result, ok, err, fatal, is_no_such_entity, not,
}
use dscuss.Entity.{EntityId, Time}
use dscuss.Entity.Ids.{parse_string}
use dscuss.Entity.Messages.{Readings}
use dscuss.Env.{Env}
use dscuss.Crypto.Keys.{KeyCodec}
use dscuss.Node.{LoginHandle}
use dscuss.Node.Login.{Process, Opened}
use dscuss.Web.Sessions.{Session}
use dscuss.Web.Http.{
  Library, Request, is_post, Reply, not_found, bad_request, forbidden, render, Page, CommonData,
  read_common_data,
}

-- One call of a handler: the server, the handle `lh` that it was started with, the request, the
-- readings of the clock, the peers that the pool of the handle has and the times at which they are
-- closed when it is stopped, and the fuel of the searches through a thread.
pub record Call : Type 0 where
  pub codec : KeyCodec
  pub env : Env
  pub lib : Library
  pub configured : Bytes
  pub password : Bytes
  pub lh : ℕ
  pub request : Request
  pub now : Readings
  pub stored : Time
  pub peers : List (Peer × Time)
  pub fuel : ℕ

pub record Site : Type 0 where
  pub process : Process
  pub session : Session
  pub replies : List Reply

-- How a handler ends before its end: it returns, it panics, the process ends, or a search through a
-- thread still runs.
pub data Flow : Type 0 where
  returned panicked ended running : Flow

pub data Step (A : Type 0) : Type 0 where
  next : A → Site → Step A
  stop : Flow → Site → Step A

abbrev pub Act : Type 0 → Type 0
Act A = Site → Step A

infixl 5 ◌>>=◌ ◌>>◌
abbrev pub ◌>>=◌ : {A B : Type 0} → Act A → (A → Act B) → Act B
◌>>=◌ m f s = elim (m s) [ next a t ↦ f a t | stop fl t ↦ stop fl t ]

abbrev pub ◌>>◌ : {B : Type 0} → Act (Unit {0}) → Act B → Act B
m >> k = m >>= λ _. k

abbrev pub done : {A : Type 0} → A → Act A
done a s = next a s

abbrev pub finish : {A : Type 0} → Flow → Act A
finish fl s = stop fl s

abbrev pub reply : Reply → Act (Unit {0})
reply r s = next tt (record s { replies = s.replies ++ r ∷ [] })

abbrev pub respond : {A : Type 0} → Reply → Act A
respond r s = stop returned (record s { replies = s.replies ++ r ∷ [] })

-- Unless the test holds, the reply is the end.
abbrev pub require : Bool → Reply → Act (Unit {0})
require true r s = next tt s
require false r s = respond r s

abbrev pub require_session : Act (Unit {0})
require_session s = require s.session.is_authenticated forbidden s

abbrev pub get_session : Act Session
get_session s = next s.session s

abbrev pub set_session : Session → Act (Unit {0})
set_session t s = next tt (record s { session = t })

abbrev pub handle_of : Process → ℕ → LoginHandle
handle_of p lh = (p.heap lh).handle

unfoldable pub set_handle : Process → ℕ → LoginHandle → Process
set_handle p lh h =
    let opened : Opened = record (p.heap lh) { handle = h } in
    record p { heap = λ i. if i == lh then opened else p.heap i }

abbrev pub get_handle : Call → Act LoginHandle
get_handle c s = next (handle_of s.process c.lh) s

-- A call of the handle.
unfoldable pub use_handle : {A : Type 0} → Call → (LoginHandle → A × LoginHandle) → Act A
unfolding set_handle
use_handle c f s =
    let (a, h) = f (handle_of s.process c.lh) in
    next a (record s { process = set_handle s.process c.lh h })

unfoldable pub searched : {A : Type 0} → Call → Site → Option (A × LoginHandle) → Step A
unfolding set_handle
searched c s none = stop running s
searched c s (some (a, h)) = next a (record s { process = set_handle s.process c.lh h })

-- A call of the handle that may search through a thread.
unfoldable pub use_search : {A : Type 0} → Call → (LoginHandle → Option (A × LoginHandle)) → Act A
unfolding searched
use_search c f s = searched c s (f (handle_of s.process c.lh))

-- An error is a panic of the handler.
abbrev pub or_panic : {A : Type 0} → Result A → Act A
or_panic (ok a) = done a
or_panic (err e) = finish panicked
or_panic fatal = finish ended

-- After `NotFoundHandler` the handlers go on with nil, and panic at its first use.
abbrev pub or_not_found : {A : Type 0} → Result A → Act A
or_not_found (ok a) = done a
or_not_found (err e) =
    if is_no_such_entity e then reply not_found >> finish panicked else finish panicked
or_not_found fatal = finish ended

abbrev pub or_bad_request : {A : Type 0} → Result A → Act A
or_bad_request (ok a) = done a
or_bad_request (err e) = respond bad_request
or_bad_request fatal = finish ended

abbrev pub or_running : {A : Type 0} → Option A → Act A
or_running none = finish running
or_running (some a) = done a

-- The query of a request has the given number of names, or at most one.
abbrev pub require_count : Call → ℕ → Act (Unit {0})
require_count c n = require (c.request.query_count == n) bad_request

abbrev pub require_at_most_one : Call → Act (Unit {0})
require_at_most_one c = require (not (ltb 1 c.request.query_count)) bad_request

-- In the branch for POST the unescaped value is declared anew and dropped: only the error counts.
abbrev pub is_escaped : Call → Bytes → Bool
is_escaped c v = elim (c.lib.query_unescape v) [ none ↦ false | some u ↦ true ]

abbrev pub require_escaped : Call → Bytes → Act (Unit {0})
require_escaped c v = require (if is_post c.request then is_escaped c v else true) bad_request

unfoldable pub parse_id : Call → Bytes → Act EntityId
unfolding parse_string
parse_id c s = or_bad_request (parse_string c.env c.lib.decode_base64 s)

-- The page that a handler ends with; what is common to the pages is read from the session and the
-- handle as they are then, and has the given topic.
unfoldable pub render_page : Call → Bytes → (CommonData → Page) → Act (Unit {0})
unfolding read_common_data
render_page c topic page = do
  s ← get_session
  lh ← get_handle c
  reply (render (page (record (read_common_data c.env c.lib c.request s lh) { topic = topic })))
