-- ===== src/Query.antt =====
-- The SQL front end: tokens, the lexer, the parser and the executor.
pub mod Token
pub mod Lexer
pub mod Ast
pub mod Cursor
pub mod Parser
pub mod Executor
