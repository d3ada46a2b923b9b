-- ===== src/Tests/Expected.antt =====
-- langs/typescript/test/fixtures/schema-compiler: expected.d.ts and statements of expected.sql.
use ores_lib_core.Base.{◌++◌, Text, text}

-- expected.d.ts
abbrev pub expected_types : Text
expected_types =
    text "// Generated from ores.schema-ir.v1; do not edit.\n"
    ++ text
        "// These are shape declarations, not runtime validators (UUID/length/int32 constraints remain in JSON Schema).\n"
    ++ text "// Enable strictNullChecks and exactOptionalPropertyTypes in consumers.\n"
    ++ text "\n"
    ++ text "export interface Member {\n"
    ++ text "  readonly \"displayName\": string | null;\n"
    ++ text "  readonly \"enabled\": boolean;\n"
    ++ text "  readonly \"id\": string;\n"
    ++ text "  readonly \"organizationId\": string;\n"
    ++ text "  readonly \"rank\": number;\n"
    ++ text "}\n"
    ++ text "\n"
    ++ text "export interface MemberPatch {\n"
    ++ text "  readonly \"displayName\"?: string | null;\n"
    ++ text "  readonly \"enabled\"?: boolean;\n"
    ++ text "}\n"
    ++ text "\n"
    ++ text "export interface Organization {\n"
    ++ text "  readonly \"id\": string;\n"
    ++ text "  readonly \"name\": string;\n"
    ++ text "}\n"

-- The statement in expected.sql that creates the table of organizations.
abbrev pub expected_table : Text
expected_table =
    text "CREATE TABLE \"schema_demo\".\"organizations\" (\n"
    ++ text "  \"id\" pg_catalog.uuid NOT NULL,\n"
    ++ text
        "  \"name\" pg_catalog.text NOT NULL CHECK (pg_catalog.char_length(\"name\") >= 1) CHECK (pg_catalog.char_length(\"name\") <= 100),\n"
    ++ text "  CONSTRAINT \"ores_ir_pk_999d739a75ca10ff\" PRIMARY KEY (\"id\"),\n"
    ++ text "  CONSTRAINT \"ores_ir_uk_62ded27516956f3e\" UNIQUE (\"name\")\n"
    ++ text ");"
