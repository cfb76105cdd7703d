-- ===== src/Lexer/Names.antt =====
-- src/frontend/lexer.rs: the names that are keywords, types and literals, in the state Ident.
use vif.Prelude.{
  ℕ, ◌+◌, ◌-◌, ◌*◌, ◌^◌, List, [], ◌∷◌, Bool, true, false, not, ◌&&◌, ◌||◌, ◌==◌, ltb, leb,
  if◌then◌else◌, length, Option, none, some,
}
use vif.Lexer.Chars.{is_digit, between}
use vif.Lexer.Run.{bytes_eq}

-- The keywords and the types that the table of names has.
pub data Keyword : Type 0 where
  kw_fn kw_if kw_in kw_or kw_and kw_pub kw_var : Keyword
  kw_for kw_try kw_else kw_loop kw_enum kw_test kw_const : Keyword
  kw_while kw_break kw_defer kw_catch kw_union kw_switch kw_return : Keyword
  kw_struct kw_extern kw_comptime kw_continue kw_errdefer kw_undefined ty_anyptr : Keyword
  ty_f16 ty_f32 ty_f64 ty_void ty_never ty_bool ty_type : Keyword
  ty_f128 ty_usize ty_isize ty_anyint ty_anyfloat : Keyword

-- The token of a name that a user writes.
pub data Name : Type 0 where
  keyword : Keyword → Name
  -- `TyI` and `TyU`
  ty_int : Bool → ℕ → Name
  lit_bool : Bool → Name
  lit_null : Name
  ident : List ℕ → Name
  -- The diagnostic on a bit width, and an invalid token.
  invalid_width : Name

-- The string of a keyword, as bytes.
unfoldable pub keyword_text : Keyword → List ℕ
keyword_text Keyword.kw_fn = 102 ∷ 110 ∷ []
keyword_text Keyword.kw_if = 105 ∷ 102 ∷ []
keyword_text Keyword.kw_in = 105 ∷ 110 ∷ []
keyword_text Keyword.kw_or = 111 ∷ 114 ∷ []
keyword_text Keyword.kw_and = 97 ∷ 110 ∷ 100 ∷ []
keyword_text Keyword.kw_pub = 112 ∷ 117 ∷ 98 ∷ []
keyword_text Keyword.kw_var = 118 ∷ 97 ∷ 114 ∷ []
keyword_text Keyword.kw_for = 102 ∷ 111 ∷ 114 ∷ []
keyword_text Keyword.kw_try = 116 ∷ 114 ∷ 121 ∷ []
keyword_text Keyword.kw_else = 101 ∷ 108 ∷ 115 ∷ 101 ∷ []
keyword_text Keyword.kw_loop = 108 ∷ 111 ∷ 111 ∷ 112 ∷ []
keyword_text Keyword.kw_enum = 101 ∷ 110 ∷ 117 ∷ 109 ∷ []
keyword_text Keyword.kw_test = 116 ∷ 101 ∷ 115 ∷ 116 ∷ []
keyword_text Keyword.kw_const = 99 ∷ 111 ∷ 110 ∷ 115 ∷ 116 ∷ []
keyword_text Keyword.kw_while = 119 ∷ 104 ∷ 105 ∷ 108 ∷ 101 ∷ []
keyword_text Keyword.kw_break = 98 ∷ 114 ∷ 101 ∷ 97 ∷ 107 ∷ []
keyword_text Keyword.kw_defer = 100 ∷ 101 ∷ 102 ∷ 101 ∷ 114 ∷ []
keyword_text Keyword.kw_catch = 99 ∷ 97 ∷ 116 ∷ 99 ∷ 104 ∷ []
keyword_text Keyword.kw_union = 117 ∷ 110 ∷ 105 ∷ 111 ∷ 110 ∷ []
keyword_text Keyword.kw_switch = 115 ∷ 119 ∷ 105 ∷ 116 ∷ 99 ∷ 104 ∷ []
keyword_text Keyword.kw_return = 114 ∷ 101 ∷ 116 ∷ 117 ∷ 114 ∷ 110 ∷ []
keyword_text Keyword.kw_struct = 115 ∷ 116 ∷ 114 ∷ 117 ∷ 99 ∷ 116 ∷ []
keyword_text Keyword.kw_extern = 101 ∷ 120 ∷ 116 ∷ 101 ∷ 114 ∷ 110 ∷ []
keyword_text Keyword.kw_comptime = 99 ∷ 111 ∷ 109 ∷ 112 ∷ 116 ∷ 105 ∷ 109 ∷ 101 ∷ []
keyword_text Keyword.kw_continue = 99 ∷ 111 ∷ 110 ∷ 116 ∷ 105 ∷ 110 ∷ 117 ∷ 101 ∷ []
keyword_text Keyword.kw_errdefer = 101 ∷ 114 ∷ 114 ∷ 100 ∷ 101 ∷ 102 ∷ 101 ∷ 114 ∷ []
keyword_text Keyword.kw_undefined = 117 ∷ 110 ∷ 100 ∷ 101 ∷ 102 ∷ 105 ∷ 110 ∷ 101 ∷ 100 ∷ []
keyword_text Keyword.ty_anyptr = 97 ∷ 110 ∷ 121 ∷ 112 ∷ 116 ∷ 114 ∷ []
keyword_text Keyword.ty_f16 = 102 ∷ 49 ∷ 54 ∷ []
keyword_text Keyword.ty_f32 = 102 ∷ 51 ∷ 50 ∷ []
keyword_text Keyword.ty_f64 = 102 ∷ 54 ∷ 52 ∷ []
keyword_text Keyword.ty_void = 118 ∷ 111 ∷ 105 ∷ 100 ∷ []
keyword_text Keyword.ty_never = 110 ∷ 101 ∷ 118 ∷ 101 ∷ 114 ∷ []
keyword_text Keyword.ty_bool = 98 ∷ 111 ∷ 111 ∷ 108 ∷ []
keyword_text Keyword.ty_type = 116 ∷ 121 ∷ 112 ∷ 101 ∷ []
keyword_text Keyword.ty_f128 = 102 ∷ 49 ∷ 50 ∷ 56 ∷ []
keyword_text Keyword.ty_usize = 117 ∷ 115 ∷ 105 ∷ 122 ∷ 101 ∷ []
keyword_text Keyword.ty_isize = 105 ∷ 115 ∷ 105 ∷ 122 ∷ 101 ∷ []
keyword_text Keyword.ty_anyint = 97 ∷ 110 ∷ 121 ∷ 105 ∷ 110 ∷ 116 ∷ []
keyword_text Keyword.ty_anyfloat = 97 ∷ 110 ∷ 121 ∷ 102 ∷ 108 ∷ 111 ∷ 97 ∷ 116 ∷ []

-- The table of `tiny_map!`.
abbrev pub names : List (List ℕ × Name)
names =
    (102 ∷ 110 ∷ [], Name.keyword Keyword.kw_fn)
    ∷ (105 ∷ 102 ∷ [], Name.keyword Keyword.kw_if)
    ∷ (105 ∷ 110 ∷ [], Name.keyword Keyword.kw_in)
    ∷ (111 ∷ 114 ∷ [], Name.keyword Keyword.kw_or)
    ∷ (105 ∷ 49 ∷ [], Name.ty_int true 1)
    ∷ (105 ∷ 50 ∷ [], Name.ty_int true 2)
    ∷ (105 ∷ 51 ∷ [], Name.ty_int true 3)
    ∷ (105 ∷ 52 ∷ [], Name.ty_int true 4)
    ∷ (105 ∷ 53 ∷ [], Name.ty_int true 5)
    ∷ (105 ∷ 54 ∷ [], Name.ty_int true 6)
    ∷ (105 ∷ 55 ∷ [], Name.ty_int true 7)
    ∷ (105 ∷ 56 ∷ [], Name.ty_int true 8)
    ∷ (105 ∷ 57 ∷ [], Name.ty_int true 9)
    ∷ (117 ∷ 49 ∷ [], Name.ty_int false 1)
    ∷ (117 ∷ 50 ∷ [], Name.ty_int false 2)
    ∷ (117 ∷ 51 ∷ [], Name.ty_int false 3)
    ∷ (117 ∷ 52 ∷ [], Name.ty_int false 4)
    ∷ (117 ∷ 53 ∷ [], Name.ty_int false 5)
    ∷ (117 ∷ 54 ∷ [], Name.ty_int false 6)
    ∷ (117 ∷ 55 ∷ [], Name.ty_int false 7)
    ∷ (117 ∷ 56 ∷ [], Name.ty_int false 8)
    ∷ (117 ∷ 57 ∷ [], Name.ty_int false 9)
    ∷ (97 ∷ 110 ∷ 100 ∷ [], Name.keyword Keyword.kw_and)
    ∷ (112 ∷ 117 ∷ 98 ∷ [], Name.keyword Keyword.kw_pub)
    ∷ (118 ∷ 97 ∷ 114 ∷ [], Name.keyword Keyword.kw_var)
    ∷ (102 ∷ 111 ∷ 114 ∷ [], Name.keyword Keyword.kw_for)
    ∷ (116 ∷ 114 ∷ 121 ∷ [], Name.keyword Keyword.kw_try)
    ∷ (97 ∷ 110 ∷ 121 ∷ 112 ∷ 116 ∷ 114 ∷ [], Name.keyword Keyword.ty_anyptr)
    ∷ (102 ∷ 49 ∷ 54 ∷ [], Name.keyword Keyword.ty_f16)
    ∷ (102 ∷ 51 ∷ 50 ∷ [], Name.keyword Keyword.ty_f32)
    ∷ (102 ∷ 54 ∷ 52 ∷ [], Name.keyword Keyword.ty_f64)
    ∷ (105 ∷ 49 ∷ 54 ∷ [], Name.ty_int true 16)
    ∷ (105 ∷ 51 ∷ 50 ∷ [], Name.ty_int true 32)
    ∷ (105 ∷ 54 ∷ 52 ∷ [], Name.ty_int true 64)
    ∷ (117 ∷ 49 ∷ 54 ∷ [], Name.ty_int false 16)
    ∷ (117 ∷ 51 ∷ 50 ∷ [], Name.ty_int false 32)
    ∷ (117 ∷ 54 ∷ 52 ∷ [], Name.ty_int false 64)
    ∷ (115 ∷ 101 ∷ 108 ∷ 102 ∷ [], Name.ident (115 ∷ 101 ∷ 108 ∷ 102 ∷ []))
    ∷ (83 ∷ 101 ∷ 108 ∷ 102 ∷ [], Name.ident (83 ∷ 101 ∷ 108 ∷ 102 ∷ []))
    ∷ (101 ∷ 108 ∷ 115 ∷ 101 ∷ [], Name.keyword Keyword.kw_else)
    ∷ (108 ∷ 111 ∷ 111 ∷ 112 ∷ [], Name.keyword Keyword.kw_loop)
    ∷ (101 ∷ 110 ∷ 117 ∷ 109 ∷ [], Name.keyword Keyword.kw_enum)
    ∷ (116 ∷ 101 ∷ 115 ∷ 116 ∷ [], Name.keyword Keyword.kw_test)
    ∷ (110 ∷ 117 ∷ 108 ∷ 108 ∷ [], Name.lit_null)
    ∷ (116 ∷ 114 ∷ 117 ∷ 101 ∷ [], Name.lit_bool true)
    ∷ (118 ∷ 111 ∷ 105 ∷ 100 ∷ [], Name.keyword Keyword.ty_void)
    ∷ (110 ∷ 101 ∷ 118 ∷ 101 ∷ 114 ∷ [], Name.keyword Keyword.ty_never)
    ∷ (98 ∷ 111 ∷ 111 ∷ 108 ∷ [], Name.keyword Keyword.ty_bool)
    ∷ (116 ∷ 121 ∷ 112 ∷ 101 ∷ [], Name.keyword Keyword.ty_type)
    ∷ (102 ∷ 49 ∷ 50 ∷ 56 ∷ [], Name.keyword Keyword.ty_f128)
    ∷ (105 ∷ 49 ∷ 50 ∷ 56 ∷ [], Name.ty_int true 128)
    ∷ (117 ∷ 49 ∷ 50 ∷ 56 ∷ [], Name.ty_int false 128)
    ∷ (99 ∷ 111 ∷ 110 ∷ 115 ∷ 116 ∷ [], Name.keyword Keyword.kw_const)
    ∷ (119 ∷ 104 ∷ 105 ∷ 108 ∷ 101 ∷ [], Name.keyword Keyword.kw_while)
    ∷ (98 ∷ 114 ∷ 101 ∷ 97 ∷ 107 ∷ [], Name.keyword Keyword.kw_break)
    ∷ (100 ∷ 101 ∷ 102 ∷ 101 ∷ 114 ∷ [], Name.keyword Keyword.kw_defer)
    ∷ (99 ∷ 97 ∷ 116 ∷ 99 ∷ 104 ∷ [], Name.keyword Keyword.kw_catch)
    ∷ (117 ∷ 110 ∷ 105 ∷ 111 ∷ 110 ∷ [], Name.keyword Keyword.kw_union)
    ∷ (102 ∷ 97 ∷ 108 ∷ 115 ∷ 101 ∷ [], Name.lit_bool false)
    ∷ (117 ∷ 115 ∷ 105 ∷ 122 ∷ 101 ∷ [], Name.keyword Keyword.ty_usize)
    ∷ (105 ∷ 115 ∷ 105 ∷ 122 ∷ 101 ∷ [], Name.keyword Keyword.ty_isize)
    ∷ (115 ∷ 119 ∷ 105 ∷ 116 ∷ 99 ∷ 104 ∷ [], Name.keyword Keyword.kw_switch)
    ∷ (114 ∷ 101 ∷ 116 ∷ 117 ∷ 114 ∷ 110 ∷ [], Name.keyword Keyword.kw_return)
    ∷ (115 ∷ 116 ∷ 114 ∷ 117 ∷ 99 ∷ 116 ∷ [], Name.keyword Keyword.kw_struct)
    ∷ (101 ∷ 120 ∷ 116 ∷ 101 ∷ 114 ∷ 110 ∷ [], Name.keyword Keyword.kw_extern)
    ∷ (97 ∷ 110 ∷ 121 ∷ 105 ∷ 110 ∷ 116 ∷ [], Name.keyword Keyword.ty_anyint)
    ∷ (99 ∷ 111 ∷ 109 ∷ 112 ∷ 116 ∷ 105 ∷ 109 ∷ 101 ∷ [], Name.keyword Keyword.kw_comptime)
    ∷ (99 ∷ 111 ∷ 110 ∷ 116 ∷ 105 ∷ 110 ∷ 117 ∷ 101 ∷ [], Name.keyword Keyword.kw_continue)
    ∷ (101 ∷ 114 ∷ 114 ∷ 100 ∷ 101 ∷ 102 ∷ 101 ∷ 114 ∷ [], Name.keyword Keyword.kw_errdefer)
    ∷ (97 ∷ 110 ∷ 121 ∷ 102 ∷ 108 ∷ 111 ∷ 97 ∷ 116 ∷ [], Name.keyword Keyword.ty_anyfloat)
    ∷ (117 ∷ 110 ∷ 100 ∷ 101 ∷ 102 ∷ 105 ∷ 110 ∷ 101 ∷ 100 ∷ [], Name.keyword Keyword.kw_undefined)
    ∷ []

abbrev pub find_name : List (List ℕ × Name) → List ℕ → Option Name
find_name [] str = none
find_name ((text, name) ∷ table) str = if bytes_eq str text then some name else find_name table str

-- `candidate`: the lengths of the keywords are from 2 to 9.
abbrev pub candidate : List ℕ → Option Name
candidate str =
    if not (between 2 (length str) 9) || (length str == 10) then none else find_name names str

abbrev pub all_digits : List ℕ → Bool
all_digits [] = true
all_digits (c ∷ cs) = is_digit c && all_digits cs

-- The number of decimal digits, after the number `n`.
abbrev pub decimal : List ℕ → ℕ → ℕ
decimal [] n = n
decimal (c ∷ cs) n = decimal cs (n * 10 + (c - 48))

-- `u64::from_ascii_radix(digits, 10).unwrap_or(0)`, which fails for a number that is no `u64`.
abbrev pub width_of : List ℕ → ℕ
width_of digits = let n = decimal digits 0 in if ltb n (2 ^ 64) then n else 0

abbrev pub sized : Bool → ℕ → Name
sized sign bits =
    if (bits == 0) || ltb 65535 bits then Name.invalid_width else Name.ty_int sign bits

-- The arms for a name that is not in the table.
abbrev pub other_name : List ℕ → Name
other_name [] = Name.ident []
other_name (c ∷ cs) =
    if ((c == 117) || (c == 105)) && (leb 2 (length (c ∷ cs)) && all_digits cs)
    then sized (c == 105) (width_of cs)
    else Name.ident (c ∷ cs)

abbrev pub or_other : Option Name → List ℕ → Name
or_other (some name) str = name
or_other none str = other_name str

unfoldable pub name_of : List ℕ → Name
name_of str = or_other (candidate str) str
