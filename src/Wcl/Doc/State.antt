-- ===== src/Wcl/Doc/State.antt =====
-- The measures of src/wcl/doc_state.h. `charwidth` stands for `utf8proc_charwidth` of the vendored
-- utf8proc; a size_t is a number below 2 ^ 64, and its sums wrap around.
use wake.Prelude.{ℕ, ◌+◌, ◌%◌, ◌^◌, max, Bool, true, false, ◌==◌, if◌then◌else◌}

abbrev pub add_size : ℕ → ℕ → ℕ
add_size a b = (a + b) % 2 ^ 64

abbrev pub newline : ℕ
newline = b'\n'

abbrev pub space : ℕ
space = b' '

-- What the code asks of the template parameter `State`.
pub record StateOps (S : Type 0) : Type 0 where
  pub identity : S
  pub plus : S → S → S
  pub inject : ℕ → ℕ → S

pub record ByteCountState : Type 0 where
  pub count : ℕ

abbrev pub byte_count_ops : StateOps ByteCountState
byte_count_ops = record {
  identity = record { count = 0 };
  plus = λ a b. record { count = add_size a.count b.count };
  inject = λ byte_size codepoint. record { count = byte_size };
}

pub record NewlineCountState : Type 0 where
  pub count : ℕ

abbrev pub newline_count_ops : StateOps NewlineCountState
newline_count_ops = record {
  identity = record { count = 0 };
  plus = λ a b. record { count = add_size a.count b.count };
  inject = λ byte_size codepoint. record { count = if codepoint == newline then 1 else 0 };
}

pub record FirstWidthState : Type 0 where
  pub wrapped : Bool
  pub width : ℕ

pub record LastWidthState : Type 0 where
  pub wrapped : Bool
  pub width : ℕ

pub record MaxWidthState : Type 0 where
  pub first_width : FirstWidthState
  pub last_width : LastWidthState
  pub width : ℕ

pub record LastWsCountState : Type 0 where
  pub wrapped : Bool
  pub count : ℕ

abbrev pub first_width_plus : FirstWidthState → FirstWidthState → FirstWidthState
first_width_plus a b =
    if a.wrapped then a else (record { wrapped = b.wrapped; width = add_size a.width b.width })

abbrev pub last_width_plus : LastWidthState → LastWidthState → LastWidthState
last_width_plus a b =
    if b.wrapped then b else (record { wrapped = a.wrapped; width = add_size a.width b.width })

abbrev pub max_width_plus : MaxWidthState → MaxWidthState → MaxWidthState
max_width_plus a b =
    let merge_width = add_size a.last_width.width b.first_width.width in
    record {
      first_width = first_width_plus a.first_width b.first_width;
      last_width = last_width_plus a.last_width b.last_width;
      width = max (max a.width b.width) merge_width;
    }

abbrev pub last_ws_count_plus : LastWsCountState → LastWsCountState → LastWsCountState
last_ws_count_plus a b =
    if b.wrapped then b else (record { wrapped = a.wrapped; count = add_size a.count b.count })

abbrev pub last_ws_count_ops : StateOps LastWsCountState
last_ws_count_ops = record {
  identity = record { wrapped = false; count = 0 };
  plus = last_ws_count_plus;
  inject = λ byte_size codepoint.
      if codepoint == newline
      then (record { wrapped = true; count = 0 })
      else (record { wrapped = false; count = if codepoint == space then 1 else 0 });
}

pub record DocState : Type 0 where
  pub byte_count : ByteCountState
  pub newline_count : NewlineCountState
  pub first_width : FirstWidthState
  pub last_width : LastWidthState
  pub max_width : MaxWidthState
  pub last_ws_count : LastWsCountState

-- doc_state::has_newline and doc_state::height
abbrev pub has_newline : DocState → Bool
has_newline s = if s.newline_count.count == 0 then false else true

abbrev pub height : DocState → ℕ
height s = add_size s.newline_count.count 1

module _ (charwidth : ℕ → ℕ) where
  abbrev pub first_width_ops : StateOps FirstWidthState
  first_width_ops = record {
    identity = record { wrapped = false; width = 0 };
    plus = first_width_plus;
    inject = λ byte_size codepoint.
        if codepoint == newline
        then (record { wrapped = true; width = 0 })
        else (record { wrapped = false; width = charwidth codepoint });
  }

  abbrev pub last_width_ops : StateOps LastWidthState
  last_width_ops = record {
    identity = record { wrapped = false; width = 0 };
    plus = last_width_plus;
    inject = λ byte_size codepoint.
        if codepoint == newline
        then (record { wrapped = true; width = 0 })
        else (record { wrapped = false; width = charwidth codepoint });
  }

  abbrev pub max_width_ops : StateOps MaxWidthState
  max_width_ops = record {
    identity = record {
      first_width = first_width_ops.identity;
      last_width = last_width_ops.identity;
      width = 0;
    };
    plus = max_width_plus;
    inject = λ byte_size codepoint. record {
      first_width = first_width_ops.inject byte_size codepoint;
      last_width = last_width_ops.inject byte_size codepoint;
      width = charwidth codepoint;
    };
  }

  abbrev pub doc_state_ops : StateOps DocState
  doc_state_ops = record {
    identity = record {
      byte_count = byte_count_ops.identity;
      newline_count = newline_count_ops.identity;
      first_width = first_width_ops.identity;
      last_width = last_width_ops.identity;
      max_width = max_width_ops.identity;
      last_ws_count = last_ws_count_ops.identity;
    };
    plus = λ a b. record {
      byte_count = byte_count_ops.plus a.byte_count b.byte_count;
      newline_count = newline_count_ops.plus a.newline_count b.newline_count;
      first_width = first_width_plus a.first_width b.first_width;
      last_width = last_width_plus a.last_width b.last_width;
      max_width = max_width_plus a.max_width b.max_width;
      last_ws_count = last_ws_count_plus a.last_ws_count b.last_ws_count;
    };
    inject = λ byte_size codepoint. record {
      byte_count = byte_count_ops.inject byte_size codepoint;
      newline_count = newline_count_ops.inject byte_size codepoint;
      first_width = first_width_ops.inject byte_size codepoint;
      last_width = last_width_ops.inject byte_size codepoint;
      max_width = max_width_ops.inject byte_size codepoint;
      last_ws_count = last_ws_count_ops.inject byte_size codepoint;
    };
  }
