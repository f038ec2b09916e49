-- ===== src/Dsl.antt =====
-- src/dsl: the reference DSL of manifests. Text is the list of its bytes of UTF-8, as the lexer
-- reads it; a `String` inside a token or an expression is such a list too.
pub mod Float
pub mod Ast
pub mod Lexer
pub mod Parser
pub mod Eval
pub mod Steps
pub mod Tests
