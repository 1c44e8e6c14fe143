-- ===== src/Sandbox/Data.antt =====
-- Data of the examples: two groups of one owner, and three memberships.
use identity_api.Common.{false, [], ◌∷◌, none}
use identity_api.Types.{PrefixedId, Group}
use identity_api.Platform.{Relation, create_relationships}
use identity_api.Platform.Schema.{Tables}
use identity_api.Sandbox.{World}

abbrev pub ops : Group
ops = record { id = "g-ops"; owner_id = "tnt"; name = "ops"; description = "" }

abbrev pub dev : Group
dev = record { id = "g-dev"; owner_id = "tnt"; name = "dev"; description = "builds" }

abbrev pub qa : Group
qa = record { id = "g-qa"; owner_id = "tnt"; name = "qa"; description = "" }

abbrev pub tables : Tables
tables = record {
  issuers =
      record {
        id = "iss-1";
        owner_id = "tnt";
        uri = "https://idp";
        name = "idp";
        jwksuri = "https://idp/jwks";
        mappings = none;
        conditions = none;
      }
      ∷ [];
  user_info = record { id = "usr-1"; name = "Ann"; email = ""; sub = "ann"; iss_id = "iss-1" } ∷ [];
  oauth_clients = [];
  groups = ops ∷ dev ∷ [];
  group_members =
      record { group_id = "g-ops"; subject_id = "ann" }
      ∷ record { group_id = "g-ops"; subject_id = "bob" }
      ∷ record { group_id = "g-dev"; subject_id = "ann" }
      ∷ [];
}

abbrev member : PrefixedId → Relation
member s = record { relation = "direct_member"; subject_id = s }

-- The permissions API was told of the three memberships.
abbrev pub start : World
start = record {
  view = record {
    committed = tables;
    working = tables;
    published =
        create_relationships "group" "g-ops" (member "ann" ∷ member "bob" ∷ [])
        ∷ create_relationships "group" "g-dev" (member "ann" ∷ [])
        ∷ [];
  };
  denied = "tnt-denied" ∷ [];
  events_down = false;
  commit_down = false;
  database_down = false;
  fresh = "g-new";
}
