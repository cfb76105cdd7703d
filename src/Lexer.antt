-- ===== src/Lexer.antt =====
-- src/frontend/lexer.rs: the lexer.
pub mod Chars
pub mod Token
pub mod Classes
pub mod Moves
pub mod Start
pub mod Marks
pub mod Shifts
pub mod States
pub mod Run
pub mod Spelling
pub mod Keeps
pub mod Transition
pub mod Faithful
pub mod Total
pub mod Continue
pub mod Munch
pub mod Numbers
pub mod Literals
pub mod Scan
pub mod Reading
pub mod Integers
pub mod Memx
pub mod Strings
pub mod Within
pub mod StringEnds
pub mod Quoting
pub mod Comments
pub mod Entering
pub mod Known
pub mod Entered
pub mod Handover
pub mod Next
pub mod Lines
pub mod Advance
pub mod Progress
pub mod Tokens
pub mod Names
pub mod Keywords
pub mod Widths
pub mod Tests
