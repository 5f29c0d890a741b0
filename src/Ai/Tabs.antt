-- ===== src/Ai/Tabs.antt =====
-- web/src/lib/ai/ai-keys.ts, `useAIKeys`: the keys that two tabs show and the keys in the storage.
use tidyboard.Prelude.{
  ◌≡◌, refl, ◌∙◌, sym, Bool, true, false, List, [], ◌∷◌, Option, none, some, String, ◌⊎◌, inl, inr,
  if◌then◌else◌,
}
use tidyboard.Notes.{JsonCodec}
use tidyboard.Ai.Keys.{
  AiKeys, KeyChange, set_key, clear_key, clear_all, keys_of, keys_json, read_keys, changed,
  with_key, stored_after, Tabs, TabEvent, in_one, in_two, hears_one, hears_two, tab_step, tab_run,
  opened,
}

keys_of-keys_json :
    (a b c : Option String)
    → keys_of (some (keys_json (record { openai = a; anthropic = b; google = c })))
      ≡ record { openai = a; anthropic = b; google = c }
keys_of-keys_json none none none = refl
keys_of-keys_json none none (some c) = refl
keys_of-keys_json none (some b) none = refl
keys_of-keys_json none (some b) (some c) = refl
keys_of-keys_json (some a) none none = refl
keys_of-keys_json (some a) none (some c) = refl
keys_of-keys_json (some a) (some b) none = refl
keys_of-keys_json (some a) (some b) (some c) = refl

module _ (codec : JsonCodec) where
  read_keys-write : (k : AiKeys) → read_keys codec (some (codec.stringify (keys_json k))) ≡ k
  read_keys-write k =
      rw (codec.stringify-nonempty _, codec.parse-stringify _)
        (keys_of-keys_json k.openai k.anthropic k.google)

  read_keys-stored_after :
      (c : KeyChange) (k : AiKeys) → read_keys codec (stored_after codec c k) ≡ changed c k
  read_keys-stored_after (set_key p v) k = read_keys-write (with_key p (some v) k)
  read_keys-stored_after (clear_key p) k = read_keys-write (with_key p none k)
  read_keys-stored_after clear_all k = refl

  -- A storage event is on its way to the tab, or it shows what is stored.
  abbrev Agrees : Bool → AiKeys → Option codec.Text → Type 0
  Agrees told keys stored = (told ≡ true) ⊎ (keys ≡ read_keys codec stored)

  abbrev BothAgree : Tabs codec → Type 0
  BothAgree s = Agrees s.told_one s.one s.stored × Agrees s.told_two s.two s.stored

  hears-Agrees :
      (b : Bool) (s t : Tabs codec) → BothAgree s → BothAgree t → BothAgree (if b then t else s)
  hears-Agrees true s t hs ht = ht
  hears-Agrees false s t hs ht = hs

  tab_step-Agrees : (s : Tabs codec) (e : TabEvent) → BothAgree s → BothAgree (tab_step codec s e)
  tab_step-Agrees s (in_one c) h = (inr (sym (read_keys-stored_after c s.one)), inl refl)
  tab_step-Agrees s (in_two c) h = (inl refl, inr (sym (read_keys-stored_after c s.two)))
  tab_step-Agrees s hears_one h = hears-Agrees s.told_one s _ h (inr refl, h.1)
  tab_step-Agrees s hears_two h = hears-Agrees s.told_two s _ h (h.0, inr refl)

  tab_run-Agrees :
      (s : Tabs codec) (es : List TabEvent) → BothAgree s → BothAgree (tab_run codec s es)
  tab_run-Agrees s [] h = h
  tab_run-Agrees s (e ∷ es) h = tab_run-Agrees (tab_step codec s e) es (tab_step-Agrees s e h)

  settled :
      (told : Bool) (keys : AiKeys) (stored : Option codec.Text)
      → Agrees told keys stored
      → told ≡ false
      → keys ≡ read_keys codec stored
  settled told keys stored (inl p) q = cc
  settled told keys stored (inr p) q = p

-- Two tabs are opened on the same storage, and changes of keys in either and storage events that reach
-- them come in any order. Once no storage event is on its way, both show the same keys, and those are
-- the keys that a tab opened then would show.
pub tab_run-opened :
    (codec : JsonCodec) (stored : Option codec.Text) (es : List TabEvent)
    → (tab_run codec (opened codec stored) es).told_one ≡ false
    → (tab_run codec (opened codec stored) es).told_two ≡ false
    → (let s = tab_run codec (opened codec stored) es in
        (s.one ≡ s.two) × (s.two ≡ (opened codec s.stored).two))
tab_run-opened codec stored es p q =
    let s = tab_run codec (opened codec stored) es in
    let h = tab_run-Agrees codec (opened codec stored) es (inr refl, inr refl) in
    let one_read = settled codec s.told_one s.one s.stored h.0 p in
    let two_read = settled codec s.told_two s.two s.stored h.1 q in
    (one_read ∙ sym two_read, two_read)
