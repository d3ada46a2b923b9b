-- ===== src/Lib.antt =====
-- ores-lib-core: the JavaScript building blocks of the library, as functions that run, with the
-- theorems that make them correct.
--
-- The parts of the program, and where each is modelled:
--   langs/typescript/src/index.js      Redaction (isSensitiveField, redactRecord, Secret),
--                                      Correlation (validCorrelationId), Email
--                                      (normalizeEmailForRevocation), Grants (the two functions that
--                                      authorize organizations), Idempotency (classifyIdempotency)
--   langs/typescript/src/rpc-retry.js  Retry (record, planRpcRetry)
--   scripts/admit-rate-limit-metric.mjs  Metric (Contract: trustedV1Contract and the vocabularies;
--                                      Labels: admitRateLimitMetricAttributes)
--   langs/typescript/src/schema-compiler/
--     validate.js  Schema.Snapshot (snapshotJson), Schema.Json (its result), Schema.Log (error),
--                  Schema.Shape and Schema.Shape.Storage (the checks of shapes), Schema.Ir (the
--                  document as records), Schema.Relations (the relational checks),
--                  Schema.Collisions (generated names), Schema.Validate (validate)
--     naming.js    Schema.Names (constraintName, foreignIdentity)
--     emit.js      Schema.Emit (emitJsonSchema, emitTypescript), Schema.Postgres (emitPostgres),
--                  Schema.Doc (JSON.stringify on what they build)
--     index.js     Schema.Compile (compileSchema)
--   langs/typescript/src/schema-ir/
--     validate.js  SchemaIr (IrValidationError, the tables of names), SchemaIr.Input (jsonValue),
--                  SchemaIr.Check (record to tuple), SchemaIr.Check.Entity (entity),
--                  SchemaIr.Normalize (normalizeSchemaIr, validateSchemaIr)
--     index.js     SchemaIr.Emit (canonical JSON, generated names, emitSql), SchemaIr.Types (the
--                  other emitters), SchemaIr.Compile (compileSchemaIr)
--   .ores-lint/eslint/formatter.mjs  Formatter (the loop over results), Formatter.Output (the report)
--   .ores-lint/eslint/plugin.mjs  EslintPlugin.Tree (what the rule sees of a syntax tree),
--                  EslintPlugin.Scopes and EslintPlugin.Rule (the state and the callbacks of
--                  ores/require-send), EslintPlugin.Semi (ores/semi)
--   .ores-lint/require-send.mjs  RequireSend (LEVEL, TERMINAL, looksLikeLogger), and below it Token
--                  (tokenize), Suppress (collectSuppressions, isDisabled), Chain (skipBalanced,
--                  qualifiedName, countTopLevelArgs, walkMethodChain), Chain.Pipe (walkGleamPipe and
--                  the looks around a chain), Scopes (the stack of scopes), Analyze (analyzeSource),
--                  Report (trackedFiles, formatReport, main)
--   governance/check.mjs  Zpkg (parseZpkg), Governance (the comparisons of the manifest)
-- In the schema compiler, compileSchema calls validate, which takes a snapshot of its input, checks
-- shapes, then relations, then names, and hands the document to the emitters only if no check has
-- left a diagnostic. compileSchemaIr
-- normalizes its input, which throws at the first failure, and hands the normal document to its own
-- emitters. In the linter of logging chains, main analyses each tracked file, analyzeSource
-- reads the suppressions and the tokens of a source and walks the chains, and formatReport prints the
-- findings of all files. The other parts do not call one another. Base and Js hold what is shared: text,
-- sets, sorting, and values.
--
-- Conventions. A string is the list of its UTF-16 code units, and a literal of the source is
-- `text "…"`. A Set is the list of its members in insertion order, `sort()` is insertion sort by
-- code units. A number that code tests before use is a natural number from then on, and -0 counts
-- as 0. Where the code inspects objects (descriptors, prototypes, array lengths), a value is a
-- reference into a heap of objects (Js); the built-in prototypes have no properties of the
-- names that the code reads, a getter is taken to return undefined, and proxies are not modelled.
-- A thrown TypeError is a constructor of a result type. The conversion to lower case and `trim` of
-- isSensitiveField are the language's: of all characters only A to Z, U+212A and U+0130 have an
-- ASCII letter in their lower case. All recursion is on lists, on documents, and for
-- snapshotJson on the number of levels left, 17, where the code counts up to a depth of 16; on fuel
-- run the decimal notation of a number n, n + 1 rounds, each of which divides by ten, the hexadecimal one,
-- n rounds that divide by sixteen, and the loops of
-- require-send.mjs: tokenize has as many rounds as the source has code units and each round reads
-- one, and the loops over tokens have as many rounds as there are tokens and each moves the index up.
-- The loop of analyzeSource gives `none` if the rounds do not suffice. The diagnostics of validate
-- are passed from check to check; the document behind the shape checks is read into records, by total
-- functions whose answers elsewhere are of no account.
--
-- Two things stand outside the source. The text that an engine gives for a function of
-- Object.prototype is the parameter `inherited` of Metric.Labels. An array that jsonValue of the IR
-- takes for dense though it has a hole (a key of 2^32 - 1 or more is no index) ends the model of
-- validate.js with `unfollowed`: the code goes on with undefined values there.
--
-- Not modelled: .ores-lint/eslint/base.mjs, which configures ESLint, what ESLint itself does (a walk
-- is any list of calls of the callbacks), the reads of files and directories by governance/check.mjs
-- with its checks of the admission and conformance manifests, conformance/check.mjs, and the ports in
-- other languages.
pub mod Base
pub mod Js
pub mod Redaction
pub mod Correlation
pub mod Email
pub mod Grants
pub mod Governance
pub mod Idempotency
pub mod Retry
pub mod Metric
pub mod Schema
pub mod Formatter
pub mod Zpkg
pub mod RequireSend
pub mod SchemaIr
pub mod EslintPlugin
pub mod Tests
