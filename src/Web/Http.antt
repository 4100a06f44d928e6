-- ===== src/Web/Http.antt =====
-- cmd/dscuss-web/controller/controller.go, common_data.go: requests, replies and the data of a page.
-- The titles of the pages and the texts of error replies are left out.
use dscuss.Prelude.{
  ℕ, ◌==◌, Bytes, bytes_eq, codes, Bool, true, false, not, ◌&&◌, List, [], ◌∷◌, ◌++◌, if◌then◌else◌,
  Option, none, some, Result, ok, err, fatal, Error, is_no_such_entity,
}
use dscuss.Subs.Topic.{to_string}
use dscuss.Subs.Subscriptions.{string_slice}
use dscuss.Entity.{EntityId, Time, User, Message, Operation, UserHistory}
use dscuss.Entity.Operations.{reason_string, type_remove_message, type_ban_user}
use dscuss.Env.{Env}
use dscuss.Peer.Receiving.{shorten}
use dscuss.Sqlite.{get_user}
use dscuss.Sqlite.ProfileDatabase.{join_lines}
use dscuss.Node.{LoginHandle}
use dscuss.Web.Sessions.{Session, Cookie}

-- What the client takes from net/url, time and encoding/base64; a failure is none.
pub record Library : Type 0 where
  pub query_unescape : Bytes → Option Bytes
  pub query_escape : Bytes → Bytes
  pub format_time : Time → Bytes
  pub decode_base64 : Bytes → Option Bytes

-- What net/http says of a request: the number of the names in the query, and the value of a name in
-- the query, in the form and in the posted form, which is empty if there is none.
pub record Request : Type 0 where
  pub method : Bytes
  pub path : Bytes
  pub raw_query : Bytes
  pub query_count : ℕ
  pub query : Bytes → Bytes
  pub form_value : Bytes → Bytes
  pub post_form_value : Bytes → Bytes
  pub cookie : Option Bytes

abbrev pub is_post : Request → Bool
is_post r = bytes_eq r.method (codes "POST")

pub record UserView : Type 0 where
  pub id : Bytes
  pub short_id : Bytes
  pub nickname : Bytes
  pub info : Bytes
  pub reg_date : Bytes

pub record MessageView : Type 0 where
  pub id : Bytes
  pub short_id : Bytes
  pub subject : Bytes
  pub text : Bytes
  pub date_written : Bytes
  pub author_name : Bytes
  pub author_id : Bytes
  pub author_short_id : Bytes

-- `RootMessage`
pub record RootView : Type 0 where
  pub message : MessageView
  pub topic : Bytes

-- `Thread`; none is the zero value of its root message.
pub record ThreadView : Type 0 where
  pub root : Option RootView
  pub replies : List MessageView

pub record OperationView : Type 0 where
  pub id : Bytes
  pub short_id : Bytes
  pub typ : Bytes
  pub reason : Bytes
  pub comment : Bytes
  pub date_performed : Bytes
  pub author_name : Bytes
  pub author_id : Bytes
  pub author_short_id : Bytes

-- `PeerHistory`
pub record HistoryView : Type 0 where
  pub id : Bytes
  pub disconnected : Bytes
  pub subscriptions : Bytes

abbrev pub name_of : Result User → Bytes
name_of (ok u) = u.nickname
name_of (err e) =
    if is_no_such_entity e then codes "[unknown user]" else codes "[error fetching user from db]"
name_of fatal = codes "[error fetching user from db]"

-- `OperationType.String`
unfoldable pub type_string : ℕ → Bytes
type_string t =
    if t == type_remove_message
    then codes "RemoveMessage"
    else if t == type_ban_user
    then codes "BanUser"
    else codes "unknown operation type"

module _ (env : Env) (lib : Library) where
  unfoldable pub user_name : LoginHandle → EntityId → Bytes
  unfolding get_user
  user_name lh id = name_of (get_user env lh.storage.db id)

  -- The methods `Assign`.
  unfoldable pub assign_user : User → UserView
  unfolding shorten
  assign_user u = record {
    id = env.base64 u.id;
    short_id = shorten env u.id;
    nickname = u.nickname;
    info = u.info;
    reg_date = lib.format_time u.reg_date;
  }

  unfoldable pub assign_message : LoginHandle → Message → MessageView
  unfolding shorten user_name
  assign_message lh m = record {
    id = env.base64 m.id;
    short_id = shorten env m.id;
    subject = m.subject;
    text = m.text;
    date_written = lib.format_time m.date_written;
    author_name = user_name lh m.author_id;
    author_id = env.base64 m.author_id;
    author_short_id = shorten env m.author_id;
  }

  unfoldable pub assign_root : LoginHandle → Message → RootView
  unfolding assign_message
  assign_root lh m = record { message = assign_message lh m; topic = to_string m.topic }

  unfoldable pub assign_operation : LoginHandle → Operation → OperationView
  unfolding shorten user_name type_string reason_string
  assign_operation lh o = record {
    id = env.base64 o.id;
    short_id = shorten env o.id;
    typ = type_string o.operation_type;
    reason = reason_string o.reason;
    comment = o.comment;
    date_performed = lib.format_time o.date_performed;
    author_name = user_name lh o.author_id;
    author_id = env.base64 o.author_id;
    author_short_id = shorten env o.author_id;
  }

  unfoldable pub assign_history : UserHistory → HistoryView
  unfolding string_slice
  assign_history h = record {
    id = env.base64 h.id;
    disconnected = lib.format_time h.disconnected;
    subscriptions = join_lines (string_slice h.subs);
  }

-- `CommonData`; the owner is shown to an authenticated session only.
pub record CommonData : Type 0 where
  pub csrf : Bytes
  pub owner : Option UserView
  pub topic : Bytes
  pub current_url : Bytes
  pub show_login : Bool
  pub is_writing_permitted : Bool

abbrev pub is_nonempty : Bytes → Bool
is_nonempty [] = false
is_nonempty (c ∷ s) = true

-- strings.HasPrefix
unfoldable pub has_prefix : Bytes → Bytes → Bool
has_prefix s [] = true
has_prefix [] (c ∷ p) = false
has_prefix (d ∷ s) (c ∷ p) = (d == c) && has_prefix s p

abbrev pub url_of : Request → Bytes
url_of r = if is_nonempty r.raw_query then r.path ++ b'?' ∷ r.raw_query else r.path

unfoldable pub read_common_data : Env → Library → Request → Session → LoginHandle → CommonData
unfolding assign_user has_prefix
read_common_data env lib r s lh = record {
  csrf = s.csrf_token;
  owner = if s.is_authenticated then some (assign_user env lib lh.user) else none;
  topic = [];
  current_url = if is_nonempty r.path then lib.query_escape (url_of r) else codes "/";
  show_login = if is_nonempty r.path then not (has_prefix (url_of r) (codes "/login")) else true;
  is_writing_permitted = s.is_authenticated;
}

-- The message above a form.
pub data Notice : Type 0 where
  no_notice comment_too_long bad_subject bad_text : Notice
  credentials_too_long wrong_credentials : Notice
  bad_topic not_made not_posted : Error → Notice

-- The pages, with what their templates are given.
pub data Page : Type 0 where
  board : CommonData → List RootView → Page
  thread : CommonData → Bool → Bytes → ThreadView → Page
  thread_create : CommonData → Bytes → Bytes → Notice → Page
  thread_reply : CommonData → RootView → MessageView → Bytes → Bytes → Bool → Notice → Page
  oper_del : CommonData → MessageView → Bytes → Bytes → Notice → Page
  oper_ban : CommonData → UserView → Bytes → Bytes → Notice → Page
  oper_list : CommonData → List OperationView → Page
  user : CommonData → UserView → Page
  login : CommonData → Bytes → Notice → Page
  profile : CommonData → List UserView → List Bytes → Page
  peer_history : CommonData → List HistoryView → Page

-- What is written to the client, in order. `redirect` is of the status 303.
pub data Reply : Type 0 where
  cookies : List Cookie → Reply
  not_found bad_request forbidden internal_error : Reply
  redirect : Bytes → Reply
  render : Page → Reply
