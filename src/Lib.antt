-- ===== src/Lib.antt =====
-- The verification of parts of the vif compiler: its arbitrary precision integers, the operations
-- that it evaluates at compile time, and its lexer.
--
-- The compiler lexes and parses a module (frontend), lowers it to untyped code (ir/vuir), analyses it
-- with evaluation of what is known at compile time (compile_unit/sema.rs, on values of value.rs and
-- integers of int.rs), and generates LLVM code. Every integer of the compile-time evaluation is an
-- `Anyint`; the analysis brings a result into the range of its type with `wrap_int_value`.
--
-- Prelude: shared names, Boolean tests on numbers, lists, integers, powers of two and bit operations.
--
-- Anyint (src/int.rs): an `Anyint` is a sign and limbs of 64 bits, the least significant first.
--   Limbs     the words, the number that limbs stand for, and the loop of `normalize` (`trim`)
--   Sum       `add_abs`, `sub_abs`, `add_small_assign` (`add_small`)
--   Compare   `abs_cmp`
--   Product   the loops of `Mul` (`mul_limbs`); a write out of bounds is `none`
--   Small     `mul_small_assign` (`mul_small`), `div_rem_small`
--   Shift     `abs_shl`, `abs_shr`
--   Width     `significant_bits`, `abs_cmp_pow2`, `fits_unsigned_bits`, `fits_signed_bits`, `to_u64`
--   Sign      the record, `normalize`, `Neg`, `Add`, `Sub`, `Mul`, `Ord`, and what a value satisfies
--   SetBit    `set_bit`, and the test of a bit in `div_rem_abs`
--   Division  `div_rem_abs`; Quotient has `Div` and `Rem`, whose assertion on zero is `none`
--   Scale     `Shl`, `Shr`, `Not`
--   Parse     `parse_radix`, on the bytes of the text; its assertion on the radix is a hypothesis
--   Display   `Display`, to the bytes of the text
--   Numeral   what a text of digits means, for `parse_radix` and `Display` alike; no code
--   Twos      `twos_complement_limbs`, `from_twos_complement_limbs`
--   Bitwise   `bitwise`, for `&`, `|` and `^`
--   Convert   `from_unsigned!`, `from_signed!`, `From<u128>`, `Default`
--   Arith, Range, Natural, LongDivision have proofs only.
-- A `u64` or `u128` is a number; `as u64` and the sums and products of `u128` are taken modulo
-- 2 ^ 64 and 2 ^ 128 as written.
-- Vectors are lists without a bound on their length, and the length in bits is not bounded by `u64`.
-- The loop of `add_small_assign` runs on fuel, one more than the limbs; the recursion of `Shr` on two
-- calls, since the second call is on a magnitude; `leading_zeros` on 64 halvings; the loop of `Display`
-- on 64 rounds for each limb, since a division by 10 takes a bit at least.
--
-- Sema (src/compile_unit/sema.rs, src/value.rs): Types has `Type` and `type_bit_size`, with the
-- payloads of composite types as identities; Wrap has `wrap_int_value`; Comptime has what
-- `analyze_arithmetic_op`, `analyze_bitwise_op`, `analyze_bitwise_not_op` and
-- `analyze_comparaison_op` do with two known integers of one type; Fold, Bitwise and Shifts have
-- proofs.
-- The width of a pointer is a parameter. A panic is `none` or `panic`.
--
-- Layout (src/value.rs): Store has what the value store knows of a composite type, as a record of
-- functions of identities, and the arithmetic; Shape has the layout of a structure, an array and a
-- union from those of the parts; Types has `type_layout`, `type_union_layout`, `type_is_linear`,
-- `type_is_int_signed` and `type_is_comptime_only`, with the recursion through the store on fuel;
-- Abi has how a value is passed (codegen/abi.rs and its two modules), for the targets that the code
-- tells apart; Union, Struct and Passing have proofs. A panic is `none`, an overflow of `u64` among
-- them, and so is a want of fuel: a store may be cyclic, so no fuel is enough for all.
--
-- Lexer (src/frontend/lexer.rs): Chars has `char_class`; Token the marks with their spelling; Moves,
-- Start, Marks, Shifts and States the states of `Lexer::next` for marks, as a table of what a state
-- does with a byte; Run one run of the loop, which hands over (`goes_on`) to the other states:
--   Names     what the state Ident makes of a name that a user writes: the table of names, which an
--             outside crate looks up, and the integer types of other widths
--   Numbers   the states IntZero to FloatExp2
--   Strings   Str and EscapeStr, and `recover_invalid_string`
--   Comments  `eat_until_newline`
--   Memx      the functions of the crate memx, a parameter, and what the crate documents
--   Next      the whole of `Lexer::next`, and the loop over the tokens of a text
--   Integers  the value of an integer literal (ir/vuir/from_ast.rs, `lower_expr_int`)
-- The text is the list of the bytes from the offset on and ends with a NUL; the bytes before the
-- offset that a state uses are given to it. Spans, the text of diagnostics and the interning of
-- symbols are not modelled. A run for marks has five turns; a string has one more turn than bytes;
-- `eat_until_newline` two turns, the second after a carriage return; `next` one turn for each comment.
-- The other files of Lexer have proofs: Classes (the classes as ranges), Literals (the grammar of
-- numbers), Scan and Reading (the states against the grammar), Within and StringEnds (where a string
-- ends), Quoting (a printer of strings), Lines, Entering, Known, Entered and Handover (what a run
-- for marks leaves), Advance, Progress and Tokens (`next` and the tokens), and for marks and names
-- Keywords, Widths, Spelling, Keeps, Transition, Faithful, Total, Continue and Munch.
--
-- Span (src/common/span.rs, src/common/non_max_u32.rs): a region of a text, and `line_col`, whose loop
-- has one more turn than bytes.
--
-- Not modelled: the parser, the rest of the lowering, of the analysis and of code generation, the
-- containers and the driver: later parts, or input and output, threads and raw memory.
pub mod Prelude
pub mod Anyint
pub mod Sema
pub mod Lexer
pub mod Layout
pub mod Span
