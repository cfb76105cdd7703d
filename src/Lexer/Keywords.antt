-- ===== src/Lexer/Keywords.antt =====
-- Every keyword is found by its string, and every integer type by its width.
use vif.Prelude.{◌≡◌, refl}
use vif.Lexer.Names.{Keyword, Name, keyword_text, name_of}

-- Every keyword and every named type is the token of its string.
pub name_of-keyword_text : (k : Keyword) → name_of (keyword_text k) ≡ Name.keyword k
unfolding name_of keyword_text
name_of-keyword_text Keyword.kw_fn = refl
name_of-keyword_text Keyword.kw_if = refl
name_of-keyword_text Keyword.kw_in = refl
name_of-keyword_text Keyword.kw_or = refl
name_of-keyword_text Keyword.kw_and = refl
name_of-keyword_text Keyword.kw_pub = refl
name_of-keyword_text Keyword.kw_var = refl
name_of-keyword_text Keyword.kw_for = refl
name_of-keyword_text Keyword.kw_try = refl
name_of-keyword_text Keyword.kw_else = refl
name_of-keyword_text Keyword.kw_loop = refl
name_of-keyword_text Keyword.kw_enum = refl
name_of-keyword_text Keyword.kw_test = refl
name_of-keyword_text Keyword.kw_const = refl
name_of-keyword_text Keyword.kw_while = refl
name_of-keyword_text Keyword.kw_break = refl
name_of-keyword_text Keyword.kw_defer = refl
name_of-keyword_text Keyword.kw_catch = refl
name_of-keyword_text Keyword.kw_union = refl
name_of-keyword_text Keyword.kw_switch = refl
name_of-keyword_text Keyword.kw_return = refl
name_of-keyword_text Keyword.kw_struct = refl
name_of-keyword_text Keyword.kw_extern = refl
name_of-keyword_text Keyword.kw_comptime = refl
name_of-keyword_text Keyword.kw_continue = refl
name_of-keyword_text Keyword.kw_errdefer = refl
name_of-keyword_text Keyword.kw_undefined = refl
name_of-keyword_text Keyword.ty_anyptr = refl
name_of-keyword_text Keyword.ty_f16 = refl
name_of-keyword_text Keyword.ty_f32 = refl
name_of-keyword_text Keyword.ty_f64 = refl
name_of-keyword_text Keyword.ty_void = refl
name_of-keyword_text Keyword.ty_never = refl
name_of-keyword_text Keyword.ty_bool = refl
name_of-keyword_text Keyword.ty_type = refl
name_of-keyword_text Keyword.ty_f128 = refl
name_of-keyword_text Keyword.ty_usize = refl
name_of-keyword_text Keyword.ty_isize = refl
name_of-keyword_text Keyword.ty_anyint = refl
name_of-keyword_text Keyword.ty_anyfloat = refl
