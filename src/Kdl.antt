-- ===== src/Kdl.antt =====
-- internal/kdl: the KDL documents of the language, their lexer and their parser.
pub mod Token
pub mod Literal
pub mod Lexer
pub mod Ast
pub mod Parser
