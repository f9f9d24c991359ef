-- ===== src/Vkg/Errors/Exits.antt =====
-- Which results of Vulkan end the process.
use kgl.Common.{ℕ, ◌≡◌, ◌↔◌, ◌⊎◌, inl, inr, refl, sym, ap, ◌∙◌, Bool, true, false, Option, All}
use kgl.Common.Switch.{Enumeration, switch, switch-switch, Taken, default, label, switch-Taken}
use kgl.Vkg.Errors.Codes.{
  Error, VkResult, error_number, severity_number, vk_results, vk_result_number,
}
use kgl.Vkg.Errors.{
  severity_table, severity, result_table, convert_result, default_handler, Callback, Handlers, call,
  add, add_result,
}

-- The results with which the process goes on.
abbrev Survives : VkResult → Type 0
Survives r = (r ≡ VkResult.e_success) ⊎ (r ≡ VkResult.e_error_feature_not_present)

abbrev by_default : Option ℕ → Handlers
by_default handler = record { error_cb = Callback.default; handler = handler }

abbrev exits : Option ℕ → Error → Bool
exits handler e = (add (by_default handler) (error_number e)).exited

impossible : false ≡ true → ⊥
impossible e = cc

-- What each row of the table comes to.
Row : Option ℕ → VkResult → Error → Type 0
Row handler r e = (exits handler e ≡ true) ⊎ Survives r

rows : (handler : Option ℕ) → All (λ c. Row handler c.0 c.1) result_table
unfolding Row result_table add call default_handler severity switch severity_table error_number
    severity_number
rows handler = (
  inl refl,
  (
    inr (inl refl),
    (
      inr (inr refl),
      (inl refl, (inl refl, (inl refl, (inl refl, (inl refl, (inl refl, (inl refl, tt))))))),
    ),
  ),
)

unknown_exits : (handler : Option ℕ) → exits handler Error.unknown ≡ true
unfolding add call default_handler severity switch severity_table error_number severity_number
unknown_exits handler = refl

-- A result with which the process goes on is one of the two.
goes_on :
    (vk : Enumeration VkResult) (handler : Option ℕ) (x : ℕ) (e : Error)
    → Taken vk (Row handler) Error.unknown x e
    → exits handler e ≡ false
    → (x ≡ vk.value VkResult.e_success) ⊎ (x ≡ vk.value VkResult.e_error_feature_not_present)
unfolding Row
goes_on vk handler x e default h = absurd (impossible (sym h ∙ unknown_exits handler))
goes_on vk handler x e (label r _ at (inl ends)) h = absurd (impossible (sym h ∙ ends))
goes_on vk handler x e (label r _ at (inr (inl same))) h = inl (sym at ∙ ap vk.value same)
goes_on vk handler x e (label r _ at (inr (inr same))) h = inr (sym at ∙ ap vk.value same)

-- On the number of a result, the numbers of Vulkan do not matter.
convert_result_label :
    (vk : Enumeration VkResult) (r : VkResult)
    → convert_result vk (vk.value r) ≡ convert_result vk_results (vk_result_number r)
unfolding convert_result
convert_result_label vk r =
    ap error_number (switch-switch vk vk_results result_table Error.unknown r)

survives :
    (vk : Enumeration VkResult) (handler : Option ℕ) (r : VkResult)
    → Survives r
    → (add_result vk (by_default handler) (vk.value r)).exited ≡ false
unfolding add_result
survives vk handler r (inl same) =
    rw (same, convert_result_label vk VkResult.e_success)
      (unfold convert_result switch result_table vk_result_number error_number add call
          default_handler severity severity_table severity_number in
        refl)
survives vk handler r (inr same) =
    rw (same, convert_result_label vk VkResult.e_error_feature_not_present)
      (unfold convert_result switch result_table vk_result_number error_number add call
          default_handler severity severity_table severity_number in
        refl)

-- With the callback that the library starts with, and any handler, the process goes on after a
-- result of Vulkan just when that is eSuccess or eErrorFeatureNotPresent; so it exits on
-- eSuboptimalKHR and eErrorOutOfDateKHR, whatever the handler would do.
pub add_result-exits_iff :
    (vk : Enumeration VkResult) (handler : Option ℕ) (x : ℕ)
    → ((add_result vk (record { error_cb = Callback.default; handler = handler }) x).exited ≡ false)
      ↔ ((x ≡ vk.value VkResult.e_success) ⊎ (x ≡ vk.value VkResult.e_error_feature_not_present))
unfolding add_result
add_result-exits_iff vk handler x = (
  λ h.
      goes_on vk handler x (switch vk result_table Error.unknown x)
        (switch-Taken vk (Row handler) result_table Error.unknown x (rows handler))
        (unfold convert_result in h),
  λ h. elim h [
    | inl same ↦ rw same (survives vk handler VkResult.e_success (inl refl))
    | inr same ↦ rw same (survives vk handler VkResult.e_error_feature_not_present (inr refl))
  ],
)
