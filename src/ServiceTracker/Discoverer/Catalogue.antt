-- ===== src/ServiceTracker/Discoverer/Catalogue.antt =====
-- Which units src/service_tracker/discoverer.rs lists, how often, and in which order.
use sentinalysis.Base.{
  Bool, List, Option, Text, [], codes, false, if◌then◌else◌, none, some, text_eq, true, ℕ, ◌&&◌,
  ◌+◌, ◌∷◌, ◌≡◌,
}
use sentinalysis.LogScanner.Discovery.{text_ltb}
use sentinalysis.ServiceTracker.Discoverer.{PathBuf, SearchPath, SystemdService, unit_type_of}

module _ {A : Type 0} where
  abbrev pub total : (A → ℕ) → List A → ℕ
  total f [] = 0
  total f (x ∷ xs) = f x + total f xs

abbrev one_if : Bool → ℕ
one_if true = 1
one_if false = 0

-- How many elements satisfy `p`.
abbrev pub count : (SystemdService → Bool) → List SystemdService → ℕ
count p services = total (λ s. one_if (p s)) services

-- No name is before its predecessor's.
abbrev Follows : SystemdService → List SystemdService → Type 0
Follows x [] = Unit
Follows x (y ∷ ys) = text_ltb y.name x.name ≡ false

abbrev pub IsOrdered : List SystemdService → Type 0
IsOrdered [] = Unit
IsOrdered (x ∷ xs) = Follows x xs × IsOrdered xs

module _ (p : SystemdService → Bool) where
  -- The unit of this path, if it has the extension `service`, satisfies `p`.
  abbrev unit_of : PathBuf → Option Text → Bool
  unit_of path none = false
  unit_of path (some name) =
      p (record { name = name; unit_path = path; unit_type = unit_type_of path })

  abbrev has_extension : Option Text → Bool
  has_extension none = false
  has_extension (some extension) = text_eq extension (codes "service")

  abbrev pub gives_unit : PathBuf → Bool
  gives_unit path = has_extension path.extension && unit_of path path.file_stem

  abbrev pub units_read : Option (List PathBuf) → ℕ
  units_read none = 0
  units_read (some entries) = total (λ e. one_if (gives_unit e)) entries

  abbrev pub units_of : SearchPath → ℕ
  units_of path = if path.is_dir then units_read path.entries else 0
