-- ===== src/Witnesses/OfWeb.antt =====
-- The web client at concrete values.
use dscuss.Prelude.{
  ◌≡◌, refl, ◌⊎◌, Bytes, bytes_eq, codes, true, false, [], ◌∷◌, ◌++◌, if◌then◌else◌, some, ok, Memᴰ,
}
use dscuss.Entity.Ids.{parse_string, zeros}
use dscuss.Sqlite.ProfileDatabase.{delete_id}
use dscuss.Node.Login.{is_valid}
use dscuss.Web.Sessions.{Session, SessionPool, Fresh, Open, open_session}
use dscuss.Web.Sessions.Opening.{AreDistinct, IsOpened, open_session-IsOpened}
use dscuss.Web.Sessions.Knowing.{Known}
use dscuss.Web.Http.{Library, Request, is_post}
use dscuss.Web.Acting.{Call, handle_of}
use dscuss.Web.Serving.{login, del_moderator, serve}
use dscuss.Web.Serving.Reading.{SameData}
use dscuss.Web.Serving.Guarded.{IsAllowed, serve-guarded}
use dscuss.Web.Serving.LoggingIn.{LogsIn, serve-Authenticated}
use dscuss.Web.Serving.Forging.{serve-del_moderator}
use dscuss.Witnesses.Samples.{sample_env, first_readings}
use dscuss.Witnesses.OfAccounts.{sample_codec, logged_in}

abbrev sample_library : Library
sample_library = record {
  query_unescape = λ s. some s;
  query_escape = λ s. s;
  format_time = λ t. [];
  decode_base64 = λ s. some (zeros 31 ++ s);
}

abbrev known_session : Session
known_session = record {
  id = codes "s1";
  is_authenticated = true;
  csrf_token = codes "t1";
  created_date = 5;
  updated_date = 6;
}

abbrev guest_session : Session
guest_session = record known_session { id = codes "s2"; is_authenticated = false }

abbrev pool : SessionPool
pool = known_session ∷ guest_session ∷ []

abbrev fresh : Fresh
fresh = record {
  checked = 10;
  touched = 11;
  expiring = λ id. 12;
  created = 13;
  updated = 14;
  session_id = codes "s3";
  csrf_token = codes "t3";
}

-- A link that names the moderator 6, followed with the cookie of the known session.
abbrev link : Request
link = record {
  method = codes "GET";
  path = codes "/moder/del";
  raw_query = codes "id=6";
  query_count = 1;
  query = λ k. 6 ∷ [];
  form_value = λ k. [];
  post_form_value = λ k. [];
  cookie = some (codes "s1");
}

abbrev login_field : Bytes → Bytes
login_field k =
    if bytes_eq k (codes "csrf")
    then codes "t1"
    else if bytes_eq k (codes "username")
    then codes "alice"
    else codes "pw"

abbrev login_form : Request
login_form = record link {
  method = codes "POST";
  path = codes "/login";
  query_count = 0;
  form_value = λ k. [];
  post_form_value = login_field;
  cookie = some (codes "s2");
}

abbrev call_of : Request → Call
call_of r = record {
  codec = sample_codec;
  env = sample_env;
  lib = sample_library;
  configured = codes "addrlist";
  peers = [];
  password = codes "pw";
  lh = 4;
  request = r;
  now = first_readings;
  stored = 9;
  fuel = 3;
}

pool-AreDistinct : AreDistinct pool
unfolding bytes_eq
pool-AreDistinct = (refl, (refl, tt))

abbrev opened : Open
opened = record {
  session = record known_session { updated_date = 11 };
  pool = record known_session { updated_date = 11 } ∷ guest_session ∷ [];
  cookies = [];
}

opens : open_session (some (codes "s1")) fresh pool ≡ ok opened
unfolding open_session bytes_eq
opens = refl

open_session-IsOpened_example : IsOpened (some (codes "s1")) fresh pool opened
open_session-IsOpened_example =
    open_session-IsOpened (some (codes "s1")) fresh pool pool-AreDistinct opened opens

serve-guarded_example :
    SameData 4 logged_in (serve del_moderator (call_of link) fresh logged_in pool).process
    ⊎ IsAllowed del_moderator (call_of link) fresh pool
serve-guarded_example = serve-guarded del_moderator (call_of link) fresh logged_in pool

valid : is_valid logged_in 4 ≡ true
unfolding is_valid
valid = refl

linked : is_post link ≡ false
unfolding bytes_eq
linked = refl

named : parse_string sample_env sample_library.decode_base64 (6 ∷ []) ≡ ok 6
unfolding parse_string
named = refl

serve-del_moderator_example :
    (handle_of
      (serve del_moderator (call_of link) fresh logged_in pool).process
      4).profile.db.moderator_rows
    ≡ delete_id 6 (6 ∷ [])
serve-del_moderator_example =
    serve-del_moderator (call_of link) fresh logged_in pool opened 6 valid opens refl linked refl
      named refl refl

abbrev entered : Session
entered = record guest_session { is_authenticated = true; updated_date = 11 }

entered_mem : Memᴰ entered (serve login (call_of login_form) fresh logged_in pool).pool
unfolding serve bytes_eq dscuss.Entity.Users.new_user
entered_mem = Memᴰ.tail (Memᴰ.head refl)

serve-Authenticated_example :
    Known pool (codes "s2") ⊎ LogsIn login (call_of login_form) fresh logged_in pool (codes "s2")
serve-Authenticated_example =
    serve-Authenticated login (call_of login_form) fresh logged_in pool entered entered_mem refl
