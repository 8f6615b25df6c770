-- ===== src/QueryFilter.antt =====
-- backend/query_filter: the query filter DSL.
pub mod Ast
pub mod Host
pub mod State
pub mod Lexer
pub mod Literals
pub mod Parser
pub mod Printer
mod Escapes
mod Printed
mod Rules
mod LexerRules
mod LiteralRules
pub mod Trees
mod ParserRules
mod Comparisons
mod Expressions
mod Frames
pub mod Bounds
mod Ascii
pub mod NotChains
mod Tests
