-- ===== src/LuaAst/Print.antt =====
-- What `Display` writes for a statement.
use roxo_mcp.Base.{
  ℕ, ◌+◌, ◌-◌, ◌≡◌, refl, ◌∙◌, subst, true, false, [], ◌++◌, Option, some, ltb, arith,
  if◌then◌else◌,
}
use mathlib.Core.List.{append-nil}
use roxo_mcp.Base.Text.{Text, codes}
use roxo_mcp.LuaAst.Stream.{LuaStream, new, tabs, ◌>>◌, write, has_newline}
use roxo_mcp.LuaAst.Layout.{printed, ◌⊕◌, put, >>-printed, write-printed, enclosed}
use roxo_mcp.LuaAst.Render.{
  render, render_key, render_entries, render_elements, render_rest, fmt_string-printed,
  fmt_string_key-printed, in_brackets-printed, fmt_array-printed, fmt_table-printed,
  fmt_line-entered, entered, bool_text-one, infinity_text-one,
}
use roxo_mcp.LuaAst.{
  FpCategory, Expression, nil, bool, number, string, table, array, Entries, no_entry, entry,
  Elements, no_element, element, Floats, Statement, return_value, len, bool_text, number_text,
  fmt_number, fmt_table, fmt_array, fmt_lua, fmt_table_key, fmt_entries, fmt_elements, fmt,
}

module _ {Float : Type 0} (f : Floats Float) where
  number_text-one : (x : Float) (c : FpCategory) → has_newline (number_text f x c) ≡ false
  number_text-one x FpCategory.nan = refl
  number_text-one x FpCategory.infinite = infinity_text-one (f.is_sign_positive x)
  number_text-one x FpCategory.zero = f.display_line x
  number_text-one x FpCategory.subnormal = f.display_line x
  number_text-one x FpCategory.normal = f.display_line x

  comma-printed :
      (n index : ℕ) (e : Expression Float) (es : Elements Float) (s : LuaStream)
      → n ≡ index + 1 + len (element e es)
      → (if ltb index (n - 1) then write (codes ", ") else some) s ≡ printed (some (codes ", ")) s
  comma-printed n index e es s h = ground (arith, write-printed (codes ", ") s refl)

  no_comma-printed :
      (n index : ℕ) (s : LuaStream)
      → n ≡ index + 1
      → (if ltb index (n - 1) then write (codes ", ") else some) s ≡ printed (some []) s
  no_comma-printed n index s h = ground (arith, append-nil s.inner)

  table-printed :
      (es : Entries Float) (d : ℕ) (s : LuaStream)
      → ((q : LuaStream)
          → q.indent_level ≡ d + 1
          → q.is_start_of_line ≡ true
          → fmt_entries f es q ≡ entered (render_entries f (d + 1) es) q)
      → s.indent_level ≡ d
      → fmt_table (fmt_entries f es) s ≡ printed (render f d (table es)) s
  unfolding render
  table-printed es d s p h =
      subst
        (λ (n : ℕ).
          fmt_table (fmt_entries f es) s
          ≡ printed (enclosed (codes "{\n") (render_entries f (d + 1) es) (tabs n ++ codes "}")) s)
        h
        (fmt_table-printed (fmt_entries f es) (render_entries f (d + 1) es) s
          (λ q e b. p q (omega arith) b))

  array-printed :
      (es : Elements Float) (d : ℕ) (s : LuaStream)
      → ((q : LuaStream)
          → q.indent_level ≡ d
          → fmt_elements f (len es) 0 es q ≡ printed (render_elements f d es) q)
      → s.indent_level ≡ d
      → fmt_array (fmt_elements f (len es) 0 es) s ≡ printed (render f d (array es)) s
  unfolding render
  array-printed es d s p h =
      fmt_array-printed (fmt_elements f (len es) 0 es) (render_elements f d es) s
        (λ q e. p q (e ∙ h))

  mutual
    unfolding fmt_lua render

    fmt_lua-printed :
        (e : Expression Float) (d : ℕ) (s : LuaStream)
        → s.indent_level ≡ d
        → fmt_lua f e s ≡ printed (render f d e) s
    fmt_lua-printed nil d s h = write-printed (codes "nil") s refl
    fmt_lua-printed (bool b) d s h = write-printed (bool_text b) s (bool_text-one b)
    fmt_lua-printed (number x) d s h =
        write-printed (number_text f x (f.classify x)) s (number_text-one x (f.classify x))
    fmt_lua-printed (string t) d s h = fmt_string-printed t s
    fmt_lua-printed (table es) d s h =
        table-printed es d s (λ r g b. fmt_entries-entered es (d + 1) r g b) h
    fmt_lua-printed (array es) d s h =
        array-printed es d s (λ r g. fmt_elements-printed es (len es) 0 d r (omega arith) g) h

    fmt_table_key-printed :
        (e : Expression Float) (d : ℕ) (s : LuaStream)
        → s.indent_level ≡ d
        → fmt_table_key f e s ≡ printed (render_key f d e) s
    fmt_table_key-printed nil d s h = refl
    fmt_table_key-printed (string t) d s h = fmt_string_key-printed t s
    fmt_table_key-printed (bool b) d s h =
        in_brackets-printed (write (bool_text b)) (some (bool_text b)) s
          (λ q e. write-printed (bool_text b) q (bool_text-one b))
    fmt_table_key-printed (number x) d s h =
        in_brackets-printed (fmt_number f x) (some (number_text f x (f.classify x))) s (λ q e.
          write-printed (number_text f x (f.classify x)) q (number_text-one x (f.classify x)))
    fmt_table_key-printed (table es) d s h =
        in_brackets-printed (fmt_table (fmt_entries f es)) (render f d (table es)) s
          (λ q e. table-printed es d q (λ r g b. fmt_entries-entered es (d + 1) r g b) (e ∙ h))
    fmt_table_key-printed (array es) d s h =
        in_brackets-printed (fmt_array (fmt_elements f (len es) 0 es)) (render f d (array es)) s
          (λ q e.
            array-printed es d q (λ r g. fmt_elements-printed es (len es) 0 d r (omega arith) g)
              (e ∙ h))

    fmt_entries-entered :
        (es : Entries Float) (d : ℕ) (s : LuaStream)
        → s.indent_level ≡ d
        → s.is_start_of_line ≡ true
        → fmt_entries f es s ≡ entered (render_entries f d es) s
    fmt_entries-entered no_entry d s h b = rw (append-nil, ← b) refl
    fmt_entries-entered (entry key value es) d s h b = rw (← h) (
        fmt_line-entered (fmt_table_key f key) (fmt_lua f value) (fmt_entries f es)
          (render_key f s.indent_level key) (render f s.indent_level value)
          (render_entries f s.indent_level es) s (fmt_table_key-printed key s.indent_level s refl)
          (λ q e. fmt_lua-printed value s.indent_level q e)
          (λ q e c. fmt_entries-entered es s.indent_level q e c) b)

    fmt_elements-printed :
        (es : Elements Float) (n index d : ℕ) (s : LuaStream)
        → n ≡ index + len es
        → s.indent_level ≡ d
        → fmt_elements f n index es s ≡ printed (render_elements f d es) s
    fmt_elements-printed no_element n index d s l h = rw append-nil
    fmt_elements-printed (element e es) n index d s l h =
        >>-printed (fmt_lua f e)
          ((if ltb index (n - 1) then write (codes ", ") else some)
            >> fmt_elements f n (index + 1) es)
          (render f d e) (render_rest f d es) s (fmt_lua-printed e d s h)
          (λ q c. rest-printed es n index d q (omega arith) (c ∙ h))

    rest-printed :
        (es : Elements Float) (n index d : ℕ) (s : LuaStream)
        → n ≡ index + 1 + len es
        → s.indent_level ≡ d
        → ((if ltb index (n - 1) then write (codes ", ") else some)
              >> fmt_elements f n (index + 1) es)
            s
          ≡ printed (render_rest f d es) s
    rest-printed no_element n index d s l h =
        >>-printed (if ltb index (n - 1) then write (codes ", ") else some)
          (fmt_elements f n (index + 1) no_element) (some []) (some []) s
          (no_comma-printed n index s (omega arith)) (λ q c. rw append-nil)
    rest-printed (element e es) n index d s l h =
        >>-printed (if ltb index (n - 1) then write (codes ", ") else some)
          (fmt_elements f n (index + 1) (element e es)) (some (codes ", "))
          (render f d e ⊕ render_rest f d es) s (comma-printed n index e es s l)
          (λ q c.
            >>-printed (fmt_lua f e)
              ((if ltb (index + 1) (n - 1) then write (codes ", ") else some)
                >> fmt_elements f n (index + 1 + 1) es)
              (render f d e) (render_rest f d es) q (fmt_lua-printed e d q (c ∙ h))
              (λ r g. rest-printed es n (index + 1) d r (omega arith) (g ∙ c ∙ h)))

  abbrev pub returned : Statement Float → Option Text
  returned (return_value e) = some (codes "return ") ⊕ render f 0 e

  -- Whatever the statement: what `Display` writes through the stream, which indents as it goes,
  -- is what a printer writes that is told the level of each line; both panic exactly on a `nil`
  -- key.
  pub fmt-render : (statement : Statement Float) → fmt f statement ≡ returned statement
  unfolding fmt
  fmt-render (return_value e) = ground (
    arith,
    fmt_lua-printed e 0 (put (codes "return ") new) refl,
    write-printed (codes "return ") new refl,
  )
