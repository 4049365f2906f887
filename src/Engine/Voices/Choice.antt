-- ===== src/Engine/Voices/Choice.antt =====
-- Which voice ttsd_engine_select_valid_voice chooses.
use Prim.Native.String.{String}
use mathlib.Core.Option.{some-injective}
use mathlib.Core.Path.{subst}
use framework_uifw_voice_tts.Prelude.{
  ◌≡◌, refl, sym, ap, ◌∙◌, Bool, true, false, not, ◌&&◌, inl, inr, ◌⊎◌, Option, none, some, List,
  [], ◌∷◌, ◌++◌, ℤ, pos, ◌==ℤ◌, eq_of_==ℤ, is_nonzero, Bool-cases, Option-cases, if◌then◌else◌,
}
use framework_uifw_voice_tts.Platform.{Voice}
use framework_uifw_voice_tts.Action.{pure, ◌>>=◌}
use framework_uifw_voice_tts.Engine.{
  has_prefix, CurrentEngine, EnginePlatform, Agent, beyond, get_agent,
}
use framework_uifw_voice_tts.Engine.Voices.{
  choose_listed, is_default, language_of, default_voice_of, find_voice, prefer_voice, voice_from,
  choose_voice, is_found, select_valid_voice,
}

-- A voice of the list has a language and a type.
pub data Offered : String → ℤ → List Voice → Type 0 where
  offered_here : (v : Voice) (l : List Voice) → Offered v.language v.voice_type (v ∷ l)
  offered_there :
      (x : String) (t : ℤ) (v : Voice) (l : List Voice) → Offered x t l → Offered x t (v ∷ l)

-- What was found is a voice of the list, and its language begins with what was asked for.
abbrev pub Fits : String → List Voice → String × ℤ → Type 0
Fits lang l (x, t) = Offered x t l × (has_prefix x lang ≡ true)

Fits-there :
    (lang : String) (v : Voice) (l : List Voice) (r : String × ℤ)
    → Fits lang l r
    → Fits lang (v ∷ l) r
Fits-there lang v l (x, t) (o, e) = (offered_there x t v l o, e)

and_left : (a b : Bool) → (a && b) ≡ true → a ≡ true
and_left true b e = refl
and_left false b e = cc

and_right : (a b : Bool) → (a && b) ≡ true → b ≡ true
and_right true b e = e
and_right false b e = cc

Fits-here :
    (lang : String) (v : Voice) (l : List Voice) (s : Voice)
    → v ≡ s
    → has_prefix v.language lang ≡ true
    → Fits lang (v ∷ l) (s.language, s.voice_type)
Fits-here lang v l s same e =
    subst (λ x. Fits lang (v ∷ l) (x.language, x.voice_type)) same (offered_here v l, e)

find_voice-Fits :
    (lang : String) (type : ℤ) (l : List Voice) (r : String × ℤ)
    → find_voice lang type l ≡ some r
    → Fits lang l r × (r.1 ≡ type)
unfolding find_voice
find_voice-Fits lang type [] r e = absurd (cc e)
find_voice-Fits lang type (v ∷ l) r e =
    elim (Bool-cases (has_prefix v.language lang && v.voice_type ==ℤ type)) [
      | inl hit ↦
          subst (λ x. Fits lang (v ∷ l) x × (x.1 ≡ type))
            (some-injective (v.language, v.voice_type) r (rw hit at e))
            (
              (offered_here v l, and_left (has_prefix v.language lang) _ hit),
              eq_of_==ℤ v.voice_type type (and_right (has_prefix v.language lang) _ hit),
            )
      | inr miss ↦
          let t = find_voice-Fits lang type l r (rw miss at e) in (Fits-there lang v l r t.0, t.1)
    ]

-- The voice that the loop selects was so at the start, or is one of the list and of the language.
prefer_voice-Fits :
    (lang : String) (type : ℤ) (selected voice : Option Voice) (l : List Voice) (s : Voice)
    → (prefer_voice lang type selected voice l).0 ≡ some s
    → (selected ≡ some s) ⊎ Fits lang l (s.language, s.voice_type)
unfolding prefer_voice
prefer_voice-Fits lang type selected voice [] s e = inl e
prefer_voice-Fits lang type selected voice (v ∷ l) s e =
    let here = has_prefix v.language lang in
    elim (Bool-cases (here && v.voice_type ==ℤ type)) [
      | inl hit ↦
          inr (Fits-here lang v l s (some-injective v s (rw hit at e)) (and_left here _ hit))
      | inr miss ↦
          elim (prefer_voice-Fits lang type (if here then some v else selected) (some v) l s
            (rw miss at e)) [
              | inl start ↦ elim (Bool-cases here) [
                | inl of ↦ inr (Fits-here lang v l s (some-injective v s (rw of at start)) of)
                | inr off ↦ inl (rw off at start)
              ]
              | inr later ↦ inr (Fits-there lang v l (s.language, s.voice_type) later)
            ]
    ]

picked :
    (lang : String) (type : ℤ) (l : List Voice) (s : Voice)
    → (prefer_voice lang type none none l).0 ≡ some s
    → Fits lang l (s.language, s.voice_type)
picked lang type l s e = elim (prefer_voice-Fits lang type none none l s e) [
  | inl absent ↦ absurd (cc absent)
  | inr fits ↦ fits
]

-- Where no voice has both the language and the type, the voice that was read last is the last of the list.
prefer_voice_last :
    (lang : String) (type : ℤ) (selected voice : Option Voice) (l : List Voice) (v : Voice)
    → find_voice lang type (l ++ v ∷ []) ≡ none
    → (prefer_voice lang type selected voice (l ++ v ∷ [])).1 ≡ some v
unfolding prefer_voice find_voice
prefer_voice_last lang type selected voice [] v e =
    elim (Bool-cases (has_prefix v.language lang && v.voice_type ==ℤ type)) [
      | inl hit ↦ rw hit refl
      | inr miss ↦ rw miss refl
    ]
prefer_voice_last lang type selected voice (u ∷ l) v e =
    let here = has_prefix u.language lang in
    elim (Bool-cases (here && u.voice_type ==ℤ type)) [
      | inl hit ↦ absurd (cc (rw hit at e))
      | inr miss ↦ rw miss (
          prefer_voice_last lang type (if here then some u else selected) (some u) l v
            (rw miss at e))
    ]

choose_voice-Fits :
    (c : CurrentEngine) (lang : String) (type : ℤ) (l : List Voice) (r : String × ℤ)
    → is_default lang ≡ false
    → choose_voice c lang type l ≡ some r
    → ((r ≡ default_voice_of c) ⊎ Fits lang l r)
      × (is_nonzero type ≡ true → Fits lang l r × (r.1 ≡ type))
unfolding choose_voice
choose_voice-Fits c lang type l r named e = elim (Bool-cases (is_nonzero type)) [
  | inl typed ↦
      let f = find_voice-Fits lang type l r (rw typed at (rw named at e)) in (inr f.0, λ t. f)
  | inr untyped ↦ elim (Bool-cases (has_prefix lang (language_of c))) [
    | inl own ↦ (
      inl (sym (some-injective (default_voice_of c) r (rw own at (rw untyped at (rw named at e))))),
      λ t. absurd (cc (untyped, t)),
    )
    | inr foreign ↦ elim (Option-cases (prefer_voice lang c.default_vctype none none l).0) [
      | inl unseen ↦ absurd (cc (rw unseen at (rw foreign at (rw untyped at (rw named at e)))))
      | inr (s, seen) ↦ (
        inr (
            subst (Fits lang l)
              (some-injective (s.language, s.voice_type) r
                (rw seen at (rw foreign at (rw untyped at (rw named at e)))))
              (picked lang c.default_vctype l s seen)),
        λ t. absurd (cc (untyped, t)),
      )
    ]
  ]
]

choose_voice_mixed :
    (c : CurrentEngine) (lang : String) (type : ℤ) (l : List Voice) (v s : Voice)
    → is_default lang ≡ true
    → (type ==ℤ c.default_vctype) ≡ false
    → find_voice (language_of c) type (l ++ v ∷ []) ≡ none
    → (prefer_voice (language_of c) type none none (l ++ v ∷ [])).0 ≡ some s
    → (choose_voice c lang type (l ++ v ∷ []) ≡ some (v.language, s.voice_type))
      × Fits (language_of c) (l ++ v ∷ []) (s.language, s.voice_type)
unfolding choose_voice
choose_voice_mixed c lang type l v s default other absent selected = (
  rw default (
      rw other (
        ap (λ x. voice_from x (prefer_voice (language_of c) type none none (l ++ v ∷ [])).1)
          selected
        ∙ ap (voice_from (some s)) (prefer_voice_last (language_of c) type none none l v absent))),
  picked (language_of c) type (l ++ v ∷ []) s selected,
)

choose_listed-Fits :
    (c : CurrentEngine) (lang : String) (type : ℤ) (l : List Voice) (r : String × ℤ)
    → is_default lang ≡ false
    → choose_listed c lang type l ≡ some r
    → ((r ≡ default_voice_of c) ⊎ Fits lang l r)
      × (is_nonzero type ≡ true → Fits lang l r × (r.1 ≡ type))
unfolding choose_listed
choose_listed-Fits c lang type [] r named e = absurd (cc e)
choose_listed-Fits c lang type (v ∷ l) r named e = choose_voice-Fits c lang type (v ∷ l) r named e

choose_listed-append :
    (c : CurrentEngine) (lang : String) (type : ℤ) (l : List Voice) (v : Voice)
    → choose_listed c lang type (l ++ v ∷ []) ≡ choose_voice c lang type (l ++ v ∷ [])
unfolding choose_listed
choose_listed-append c lang type [] v = refl
choose_listed-append c lang type (u ∷ l) v = refl

module _ (p : EnginePlatform) where
  open p use {World, foreach_voices}

  select_valid_voice_lem :
      (lang : String) (type : ℤ) (l : List Voice) (d : Agent World)
      → (foreach_voices d.world).0 ≡ some (pos 0, l)
      → (is_default lang && not (is_nonzero type)) ≡ false
      → (select_valid_voice p lang type d).0
        ≡ (is_found (choose_listed d.cur lang type l), choose_listed d.cur lang type l)
  unfolding select_valid_voice beyond get_agent pure ◌>>=◌
  select_valid_voice_lem lang type l d listed e = rw e (rw listed refl)

  -- Where the engine lists its voices, the voice that is chosen for a client which names a language is the
  -- default voice, or a listed one whose language begins with the text that the client gave. If the client
  -- names a type too, the voice is a listed one and has that type.
  pub select_valid_voice-Fits :
      (lang : String) (type : ℤ) (l : List Voice) (d : Agent World) (r : String × ℤ)
      → (foreach_voices d.world).0 ≡ some (pos 0, l)
      → is_default lang ≡ false
      → (select_valid_voice p lang type d).0 ≡ (true, some r)
      → ((r ≡ default_voice_of d.cur) ⊎ Fits lang l r)
        × (is_nonzero type ≡ true → Fits lang l r × (r.1 ≡ type))
  select_valid_voice-Fits lang type l d r listed named e =
      choose_listed-Fits d.cur lang type l r named
        (ap (λ x. x.1) (sym (select_valid_voice_lem lang type l d listed (rw named refl)) ∙ e))

  -- A client that names only a type, where that is not the default type and no voice of the default language
  -- has it, but there are voices of that language, gets the type of one of them and the language of the last
  -- voice that the engine lists, whatever language that is.
  pub select_valid_voice_mixed :
      (lang : String) (type : ℤ) (l : List Voice) (v s : Voice) (d : Agent World)
      → (foreach_voices d.world).0 ≡ some (pos 0, l ++ v ∷ [])
      → is_default lang ≡ true
      → is_nonzero type ≡ true
      → (type ==ℤ d.cur.default_vctype) ≡ false
      → find_voice (language_of d.cur) type (l ++ v ∷ []) ≡ none
      → (prefer_voice (language_of d.cur) type none none (l ++ v ∷ [])).0 ≡ some s
      → ((select_valid_voice p lang type d).0 ≡ (true, some (v.language, s.voice_type)))
        × Fits (language_of d.cur) (l ++ v ∷ []) (s.language, s.voice_type)
  select_valid_voice_mixed lang type l v s d listed default typed other absent selected =
      let m = choose_voice_mixed d.cur lang type l v s default other absent selected in
      (
        select_valid_voice_lem lang type (l ++ v ∷ []) d listed (rw default (rw typed refl))
            ∙ ap (λ o. (is_found o, o)) (choose_listed-append d.cur lang type l v ∙ m.0),
        m.1,
      )
