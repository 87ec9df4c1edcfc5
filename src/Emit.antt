-- ===== src/Emit.antt =====
-- The records that the collector logs, and the event ids on them (internal/collector/eventid.go).
pub mod Ids
pub mod Quiet
use scam.Base.{ℕ, ◌+◌, ◌%◌, Bool, Option, none, some, List, [], ◌∷◌, ◌++◌, Text, codes}
use scam.Base.Duration.{word}
use scam.Kube.{Labels}

pub record SvcPort : Type 0 where
  pub name : Text
  pub port : ℕ
  pub target_port : Text
  pub protocol : Text
  pub node_port : ℕ
  pub app_proto : Text

pub record EpEndpoint : Type 0 where
  pub addresses : List Text
  pub ready : Option Bool
  pub hostname : Text
  pub node_name : Text
  pub zone : Text

pub record EpPort : Type 0 where
  pub name : Text
  pub port : ℕ
  pub protocol : Text

pub record IngPath : Type 0 where
  pub path : Text
  pub path_type : Text
  pub backend_kind : Text
  pub backend_name : Text
  pub backend_port : Text

pub record IngRule : Type 0 where
  pub host : Text
  pub paths : List IngPath

pub record IngTls : Type 0 where
  pub hosts : List Text
  pub secret : Text

pub record GwListener : Type 0 where
  pub name : Text
  pub port : ℕ
  pub protocol : Text
  pub hostname : Text

pub record GwAddress : Type 0 where
  pub address_type : Text
  pub value : Text

pub record ParentRef : Type 0 where
  pub group : Text
  pub kind : Text
  pub namespace : Text
  pub name : Text
  pub section_name : Text
  pub port : ℕ

pub record BackendRef : Type 0 where
  pub group : Text
  pub kind : Text
  pub namespace : Text
  pub name : Text
  pub port : ℕ
  pub weight : ℕ

-- BackendTarget of internal/collector/collector.go.
pub record BackendTarget : Type 0 where
  pub namespace : Text
  pub name : Text

-- The values of log attributes, a constructor for each Go type that is passed.
pub data Attr : Type 0 where
  text : Text → Attr
  number : ℕ → Attr
  texts : List Text → Attr
  labels : Labels → Attr
  svc_ports : List SvcPort → Attr
  ep_endpoints : List EpEndpoint → Attr
  ep_ports : List EpPort → Attr
  ing_rules : List IngRule → Attr
  ing_tls : List IngTls → Attr
  gw_listeners : List GwListener → Attr
  gw_addresses : List GwAddress → Attr
  parent_refs : List ParentRef → Attr
  backend_refs : List BackendRef → Attr
  backend_targets : List BackendTarget → Attr

abbrev pub Attrs : Type 0
Attrs = List (Text × Attr)

-- A record that describes an object carries an event id; an operational one does not.
pub record Record : Type 0 where
  pub message : Text
  pub kind : Text
  pub event_id : Option ℕ
  pub attrs : Attrs

-- The counter, and what was logged so far.
pub record Log : Type 0 where
  pub next_event_id : ℕ
  pub records : List Record

-- The counter after NextEventID, which is also the id that it returns; it wraps as a uint64.
unfoldable pub bumped : Log → ℕ
bumped l = (l.next_event_id + 1) % word

-- Log.Info with "kind" and the next "event_id", and the other attributes behind them.
unfoldable pub emit : Text → Text → Attrs → Log → Log
unfolding bumped
emit message kind attrs l = record {
  next_event_id = bumped l;
  records =
      l.records
      ++ record { message = message; kind = kind; event_id = some (bumped l); attrs = attrs } ∷ [];
}

-- Log.Info or Log.Error with no event id.
unfoldable pub report : Text → Attrs → Log → Log
report message attrs l = record l {
  records =
      l.records ++ record { message = message; kind = []; event_id = none; attrs = attrs } ∷ [];
}

-- A record before it has an id: with one to come, or an operational one.
pub data Draft : Type 0 where
  stamped : Text → Text → Attrs → Draft
  plain : Text → Attrs → Draft

unfoldable pub put : Draft → Log → Log
put (stamped message kind attrs) l = emit message kind attrs l
put (plain message attrs) l = report message attrs l

unfoldable pub put_all : List Draft → Log → Log
put_all [] l = l
put_all (d ∷ ds) l = put_all ds (put d l)
