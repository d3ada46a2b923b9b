-- ===== src/EslintPlugin.antt =====
-- .ores-lint/eslint/plugin.mjs: the rules of the ESLint plugin. Tree models the looks at the syntax
-- tree, Scopes the state of ores/require-send, Rule its callbacks, Semi the callbacks of ores/semi.
pub mod Tree
pub mod Scopes
pub mod Rule
pub mod Semi
