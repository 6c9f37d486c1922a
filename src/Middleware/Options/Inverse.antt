-- ===== src/Middleware/Options/Inverse.antt =====
-- `_parse_options` accepts the arguments that well-formed items write, and no others.
use open_devops_agent.Prelude.{
  ◌≡◌, refl, ap, ap₂, ◌∙◌, Bool, true, false, Option, none, some, List, [], ◌∷◌, ◌++◌, sym,
  Bool-cases, inl, inr, ◌⊎◌,
}
use mathlib.Core.List.{append_assoc, append-nil}
use mathlib.Core.Path.{subst}
use mathlib.Core.Option.{some-injective, none-ne-some}
use open_devops_agent.Middleware.Options.Items.{
  Item, plain, switch, inline, spaced, written, plains, IsFresh, Accepts, IsValid, IsParted,
  partition_on-IsParted,
}
use open_devops_agent.Middleware.Options.Reads.{
  read_token-positional, read_token-switch, read_token-inline, read_token-spaced, parse_from-nil,
  parse_from-positional, parse_from-accepted, parse_from-separate, parse_from-separate_refused,
  parse_from-separate_missing, parse_from-refused,
}
use open_devops_agent.Text.{Text, codes, text_mem, starts_with, partition_on}
use open_devops_agent.Storage.Memory
use open_devops_agent.Storage.Memory.{Objects}
use open_devops_agent.Middleware.Options.{
  Reading, Check, positional, accepted, separate, refused, read_valued, read_option, read_token,
  parse_from, parse_options,
}

module _ (switches : List Text) (value_options : Objects Check) where
  -- The loop reads back what items write.
  written-parse_from :
      (seen positionals : List Text) (items : List Item)
      → IsValid switches value_options seen items
      → parse_from switches value_options seen positionals (written items)
        ≡ some (positionals ++ plains items)
  written-parse_from seen positionals [] h =
      parse_from-nil switches value_options seen positionals
      ∙ ap some (sym (append-nil positionals))
  written-parse_from seen positionals (plain t ∷ items) (dash, h) =
      parse_from-positional switches value_options seen positionals t (written items)
        (read_token-positional switches value_options seen t dash)
      ∙ written-parse_from seen (positionals ++ t ∷ []) items h
      ∙ ap some (append_assoc positionals (t ∷ []) (plains items))
  written-parse_from seen positionals (switch o ∷ items) (fresh, known, h) =
      parse_from-accepted switches value_options seen positionals o o (written items)
        (read_token-switch switches value_options seen o fresh known)
      ∙ written-parse_from (o ∷ seen) positionals items h
  written-parse_from seen positionals (inline o v ∷ items) (fresh, passes, h) =
      parse_from-accepted switches value_options seen positionals (o ++ b'=' ∷ v) o (written items)
        (read_token-inline switches value_options seen o v fresh passes)
      ∙ written-parse_from (o ∷ seen) positionals items h
  written-parse_from seen positionals (spaced o v ∷ items) (fresh, apart, (check, known, ok), h) =
      parse_from-separate switches value_options seen positionals o o v (written items) check
        (read_token-spaced switches value_options seen o v fresh apart check known) ok
      ∙ written-parse_from (o ∷ seen) positionals items h

  -- What a token is that reads so.
  abbrev IsRead : List Text → Text → Reading → Type 0
  IsRead seen token positional = starts_with token (codes "-") ≡ false
  IsRead seen token (accepted o) =
      ((o ≡ token) × IsFresh seen o × (text_mem o switches ≡ true))
      ⊎ ((v : Text) × (o ++ b'=' ∷ v ≡ token) × IsFresh seen o × Accepts value_options o v)
  IsRead seen token (separate o check) =
      (o ≡ token)
      × IsFresh seen o
      × (text_mem o switches ≡ false)
      × (Memory.get o value_options ≡ some check)
  IsRead seen token refused = Unit

  -- The name of an option that begins with a dash begins with one.
  dash_of :
      (parts : Text × Bool × Text) (token : Text)
      → IsParted b'=' token parts
      → starts_with token (codes "-") ≡ true
      → starts_with parts.0 (codes "-") ≡ true
  unfolding starts_with
  dash_of (o, false, v) token (bare, e) h = rw e h
  dash_of ([], true, v) token (bare, e) h =
      let h' : starts_with (b'=' ∷ v) (codes "-") ≡ true =
        subst (λ t. starts_with t (codes "-") ≡ true) (sym e) h in
      absurd (cc)
  dash_of (c ∷ o, true, v) token (bare, e) h =
      let h' : starts_with (c ∷ (o ++ b'=' ∷ v)) (codes "-") ≡ true =
        subst (λ t. starts_with t (codes "-") ≡ true) (sym e) h in
      h'

  read_valued-IsRead :
      (seen : List Text) (token o : Text) (separator : Bool) (v : Text) (found : Bool)
      (check : Option Check)
      → IsParted b'=' token (o, separator, v)
      → starts_with o (codes "-") ≡ true
      → (separator ≡ false → text_mem o switches ≡ false ⊎ (text_mem o seen ≡ true))
      → text_mem o seen ≡ found
      → Memory.get o value_options ≡ check
      → IsRead seen token (read_valued o separator v found check)
  read_valued-IsRead seen token o separator v found none parted dash apart mem get = tt
  read_valued-IsRead seen token o separator v true (some c) parted dash apart mem get = tt
  read_valued-IsRead seen token o true v false (some c) (bare, e) dash apart mem get =
      elim (Bool-cases (c v)) [
        | inl passes ↦ rw passes (inr (v, e, (dash, bare, mem), (c, get, passes)))
        | inr fails ↦ rw fails tt
      ]
  read_valued-IsRead seen token o false v false (some c) (bare, e) dash apart mem get =
      (e, (dash, bare, mem), not_switch, get)
    where
      not_switch : text_mem o switches ≡ false
      not_switch = elim (apart refl) [ inl h ↦ h | inr h ↦ absurd (cc) ]

  read_option-IsRead :
      (seen : List Text) (token : Text) (parts : Text × Bool × Text)
      → IsParted b'=' token parts
      → starts_with parts.0 (codes "-") ≡ true
      → IsRead seen token (read_option switches value_options seen parts)
  read_option-IsRead seen token (o, true, v) parted dash = elim (Bool-cases (text_mem o switches)) [
    | inl known ↦ rw known (
        read_valued-IsRead seen token o true v (text_mem o seen) _ parted dash (λ e. absurd (cc))
          refl refl)
    | inr apart ↦ rw apart (
        read_valued-IsRead seen token o true v (text_mem o seen) _ parted dash (λ e. absurd (cc))
          refl refl)
  ]
  read_option-IsRead seen token (o, false, v) (bare, e) dash =
      elim (Bool-cases (text_mem o switches)) [
        | inl known ↦ elim (Bool-cases (text_mem o seen)) [
          | inl old ↦
              rw (known, old)
                (read_valued-IsRead seen token o false v true _ (bare, e) dash (λ e. inr old) old
                  refl)
          | inr fresh ↦ rw (known, fresh) (inl (e, (dash, bare, fresh), known))
        ]
        | inr apart ↦ rw apart (
            read_valued-IsRead seen token o false v (text_mem o seen) _ (bare, e) dash
              (λ e. inl apart) refl refl)
      ]

  read_token-IsRead :
      (seen : List Text) (token : Text)
      → IsRead seen token (read_token switches value_options seen token)
  unfolding read_token
  read_token-IsRead seen token = elim (Bool-cases (starts_with token (codes "-"))) [
    | inl dash ↦ rw dash (
        read_option-IsRead seen token (partition_on b'=' token) (partition_on-IsParted b'=' token)
          (dash_of (partition_on b'=' token) token (partition_on-IsParted b'=' token) dash))
    | inr bare ↦ rw bare bare
  ]

  -- The arguments are what well-formed items write.
  abbrev pub Parsed : List Text → List Text → List Text → List Text → Type 0
  Parsed seen positionals arguments result =
      (items : List Item) × IsValid switches value_options seen items
      × (written items ≡ arguments)
      × (positionals ++ plains items ≡ result)

  -- The theorem for these arguments, and for what follows the first of them.
  abbrev Known : List Text → Type 0
  Known arguments =
      (seen positionals result : List Text)
      → parse_from switches value_options seen positionals arguments ≡ some result
      → Parsed seen positionals arguments result

  abbrev KnownTail : List Text → Type 0
  KnownTail [] = Unit
  KnownTail (v ∷ arguments) = Known arguments

  from_reading :
      (seen positionals : List Text) (token : Text) (arguments result : List Text)
      (reading : Reading)
      → read_token switches value_options seen token ≡ reading
      → IsRead seen token reading
      → Known arguments
      → KnownTail arguments
      → parse_from switches value_options seen positionals (token ∷ arguments) ≡ some result
      → Parsed seen positionals (token ∷ arguments) result
  from_reading seen positionals token arguments result positional e dash next later h =
      let (items, valid, w, r) = next seen (positionals ++ token ∷ []) result (
        sym (parse_from-positional switches value_options seen positionals token arguments e)
        ∙ h) in
      (
        plain token ∷ items,
        (dash, valid),
        ap (λ ts. token ∷ ts) w,
        sym (append_assoc positionals (token ∷ []) (plains items)) ∙ r,
      )
  from_reading seen positionals token arguments result (accepted o) e (inl (same, fresh, known))
        next later h =
      let (items, valid, w, r) = next (o ∷ seen) positionals result (
        sym (parse_from-accepted switches value_options seen positionals token o arguments e)
        ∙ h) in
      (switch o ∷ items, (fresh, known, valid), ap₂ (λ t ts. t ∷ ts) same w, r)
  from_reading seen positionals token arguments result (accepted o) e (inr (v, same, fresh, passes))
        next later h =
      let (items, valid, w, r) = next (o ∷ seen) positionals result (
        sym (parse_from-accepted switches value_options seen positionals token o arguments e)
        ∙ h) in
      (inline o v ∷ items, (fresh, passes, valid), ap₂ (λ t ts. t ∷ ts) same w, r)
  from_reading seen positionals token [] result (separate o check) e read next later h = absurd (
      none-ne-some _ (
        sym (parse_from-separate_missing switches value_options seen positionals token o check e)
        ∙ h))
  from_reading seen positionals token (v ∷ arguments) result (separate o check) e
        (same, fresh, apart, known) next later h =
      elim (Bool-cases (check v)) [
        | inl passes ↦
            let (items, valid, w, r) = later (o ∷ seen) positionals result (
              sym (
                parse_from-separate switches value_options seen positionals token o v arguments
                  check e passes)
              ∙ h) in
            (
              spaced o v ∷ items,
              (fresh, apart, (check, known, passes), valid),
              ap₂ (λ t ts. t ∷ v ∷ ts) same w,
              r,
            )
        | inr fails ↦ absurd (
            none-ne-some _ (
              sym (
                parse_from-separate_refused switches value_options seen positionals token o v
                  arguments check e fails)
              ∙ h))
      ]
  from_reading seen positionals token arguments result refused e read next later h = absurd (
      none-ne-some _
        (sym (parse_from-refused switches value_options seen positionals token arguments e) ∙ h))

  parse_from-Parsed : (arguments : List Text) → Known arguments
  parse_from-Parsed [] seen positionals result h = (
    [],
    tt,
    refl,
    append-nil positionals
        ∙ some-injective _ _ (sym (parse_from-nil switches value_options seen positionals) ∙ h),
  )
  parse_from-Parsed (token ∷ []) seen positionals result h =
      from_reading seen positionals token [] result _ refl (read_token-IsRead seen token)
        (parse_from-Parsed []) tt h
  parse_from-Parsed (token ∷ v ∷ arguments) seen positionals result h =
      from_reading seen positionals token (v ∷ arguments) result _ refl
        (read_token-IsRead seen token) (parse_from-Parsed (v ∷ arguments))
        (parse_from-Parsed arguments) h

-- `_parse_options` accepts arguments only if they are written by items each of which is well formed
-- (an argument without a dash, a known switch, or a known option with a value that its check
-- accepts, in one argument or in two), no option standing twice, and it answers with those
-- without a dash, in order.
pub parse_options-Parsed :
    (arguments switches : List Text) (value_options : Objects Check) (result : List Text)
    → parse_options arguments switches value_options ≡ some result
    → (items : List Item) × IsValid switches value_options [] items
      × (written items ≡ arguments)
      × (plains items ≡ result)
unfolding parse_options
parse_options-Parsed arguments switches value_options result h =
    parse_from-Parsed switches value_options arguments [] [] result h

-- Whatever well-formed items, no option standing twice, write is accepted by `_parse_options`,
-- which answers with those without a dash, in order.
pub parse_options-written :
    (switches : List Text) (value_options : Objects Check) (items : List Item)
    → IsValid switches value_options [] items
    → parse_options (written items) switches value_options ≡ some (plains items)
unfolding parse_options
parse_options-written switches value_options items valid =
    written-parse_from switches value_options [] [] items valid
