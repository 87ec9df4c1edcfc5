-- ===== src/Stamp/Tests.antt =====
-- A handler that keeps the attributes of With, and the theorem at it.
use scam.Base.{◌≡◌, true, List, [], ◌∷◌, ◌++◌, Text, codes, leb}
use scam.Samples.{empty_log}
use scam.Identity.{Setting, IdentityAttr, string, group, attrs_of, start, rounds}
use scam.Identity.Lookup.{Round, no_identity, secret, no_self, unanswered}
use scam.Stamp.{SlogRecord, Slog, add_attrs, with_cluster_attrs, enabled, handle}
use scam.Stamp.Current.{attrs, derive, derive_plain, handle-current}

-- The keys of the attributes, behind those that With has added.
abbrev keys : List IdentityAttr → Text
keys [] = []
keys (string key value ∷ as') = key ++ keys as'
keys (group key values ∷ as') = key ++ keys as'

abbrev keyed : Slog IdentityAttr
keyed = record {
  Handler = List IdentityAttr;
  enabled = λ h level. leb 8 level;
  handle = λ h r. r.message ++ keys (h ++ r.attrs);
  with_attrs = λ h added. h ++ added;
  with_group = λ h name. h;
}

abbrev setting : Setting
setting = record {
  env = λ name. [];
  build = record { version = codes "dev"; commit = codes "unknown" };
  endpoint = codes "https://ror.io/";
  cluster_id = codes "uid-1";
}

abbrev failing : Round
failing = record {
  secret = secret [];
  self = no_self (codes "timeout");
  cluster = unanswered (codes "timeout");
}

abbrev line : SlogRecord IdentityAttr
line = record { level = 8; message = codes "ADD"; attrs = [] }

handle-current_example :
    (handle keyed
        (rounds setting (start setting no_identity) (failing ∷ []) empty_log).0.cluster_attrs
        (derive keyed (attrs (string (codes "a") [] ∷ []) ∷ []) (with_cluster_attrs keyed []))
        line
      ≡ keyed.handle (derive_plain keyed (attrs (string (codes "a") [] ∷ []) ∷ []) []) (
          add_attrs line (
            attrs_of setting
              (rounds setting (start setting no_identity) (failing ∷ []) empty_log).0.current)))
    × (enabled keyed
          (derive keyed (attrs (string (codes "a") [] ∷ []) ∷ []) (with_cluster_attrs keyed []))
          8
        ≡ true)
handle-current_example =
    handle-current keyed [] (attrs (string (codes "a") [] ∷ []) ∷ []) setting no_identity
      (failing ∷ []) empty_log line
