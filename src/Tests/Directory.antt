-- ===== src/Tests/Directory.antt =====
-- langs/typescript/test/fixtures/schema-compiler/team-directory.json as the records that the
-- compiler reads from it.
use ores_lib_core.Base.{true, false, none, some, List, [], ◌∷◌, text}
use ores_lib_core.Schema.Ir.{string, boolean, int32, uuid, restrict, Model}

abbrev pub organization : Model
organization = record {
  name = text "Organization";
  fields =
      (record {
        name = text "id";
        type = uuid;
        required = true;
        nullable = false;
        min_length = none;
        max_length = none;
      }
        ∷ record {
          name = text "name";
          type = string;
          required = true;
          nullable = false;
          min_length = some 1;
          max_length = some 100;
        }
        ∷ []);
  storage =
      (some record {
        schema = text "schema_demo";
        table = text "organizations";
        columns =
            (record { field = text "id"; name = text "id" }
              ∷ record { field = text "name"; name = text "name" }
              ∷ []);
        primary_key = (text "id" ∷ []);
        unique_keys = ((text "name" ∷ []) ∷ []);
        foreign_keys = ([]);
      });
}

abbrev pub member : Model
member = record {
  name = text "Member";
  fields =
      (record {
        name = text "id";
        type = uuid;
        required = true;
        nullable = false;
        min_length = none;
        max_length = none;
      }
        ∷ record {
          name = text "organizationId";
          type = uuid;
          required = true;
          nullable = false;
          min_length = none;
          max_length = none;
        }
        ∷ record {
          name = text "displayName";
          type = string;
          required = true;
          nullable = true;
          min_length = none;
          max_length = some 120;
        }
        ∷ record {
          name = text "enabled";
          type = boolean;
          required = true;
          nullable = false;
          min_length = none;
          max_length = none;
        }
        ∷ record {
          name = text "rank";
          type = int32;
          required = true;
          nullable = false;
          min_length = none;
          max_length = none;
        }
        ∷ []);
  storage =
      (some record {
        schema = text "schema_demo";
        table = text "members";
        columns =
            (record { field = text "id"; name = text "id" }
              ∷ record { field = text "organizationId"; name = text "organization_id" }
              ∷ record { field = text "displayName"; name = text "display_name" }
              ∷ record { field = text "enabled"; name = text "enabled" }
              ∷ record { field = text "rank"; name = text "rank" }
              ∷ []);
        primary_key = (text "id" ∷ []);
        unique_keys = ([]);
        foreign_keys =
            (record {
              fields = (text "organizationId" ∷ []);
              model = text "Organization";
              target_fields = (text "id" ∷ []);
              on_delete = restrict;
            }
              ∷ []);
      });
}

abbrev pub member_patch : Model
member_patch = record {
  name = text "MemberPatch";
  fields =
      (record {
        name = text "displayName";
        type = string;
        required = false;
        nullable = true;
        min_length = none;
        max_length = some 120;
      }
        ∷ record {
          name = text "enabled";
          type = boolean;
          required = false;
          nullable = false;
          min_length = none;
          max_length = none;
        }
        ∷ []);
  storage = none;
}

abbrev pub directory : List Model
directory = organization ∷ member ∷ member_patch ∷ []
