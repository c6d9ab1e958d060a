-- ===== src/Schema.antt =====
-- The columns of the database, as services/core_api/apps writes them down twice: in the classes
-- of each models.py (Schema/Declared) and in the migrations (Schema/Migrations). Django, which
-- carries out the migrations, is the parameter `Migrator`, and `IsMigrator` is what it promises.
pub mod Declared
pub mod Migrations
pub mod Memory
pub mod Plans
use orbit_commerce_platform.Prelude.{
  ℕ, Text, Bool, List, Option, ◌≡◌, ◌∷◌, [], ◌++◌, if◌then◌else◌, none, some, true, false, codes,
}

pub data Model : Type 0 where
  user_model category_model product_model stock_item_model order_model order_item_model : Model

pub data OnDelete : Type 0 where
  cascades protects : OnDelete

-- The class of a field, with its bounds, and for a relation its target and `related_name`.
pub data Kind : Type 0 where
  char_field : ℕ → Kind
  email_field : ℕ → Kind
  slug_field : ℕ → Kind
  text_field boolean_field uuid_field date_time_field positive_integer_field : Kind
  decimal_field : ℕ → ℕ → Kind
  foreign_key : Model → OnDelete → Option Text → Kind
  one_to_one_field : Model → OnDelete → Option Text → Kind
  many_to_many_field : Text → Text → Kind

-- `made` is `uuid.uuid4`, `added` is `auto_now_add` and `saved` is `auto_now`.
pub data Default : Type 0 where
  required made added saved : Default
  words : Text → Default
  count : ℕ → Default
  flag : Bool → Default

-- What a class says of a field; names and texts for people are left out.
pub record Field : Type 0 where
  pub name : Text
  pub kind : Kind
  pub default_value : Default
  pub is_unique : Bool
  pub has_index : Bool
  pub is_key : Bool
  pub is_editable : Bool
  pub may_be_blank : Bool
  pub may_be_null : Bool
  pub choices : List Text

abbrev pub plain : Text → Kind → Field
plain name kind = record {
  name = name;
  kind = kind;
  default_value = required;
  is_unique = false;
  has_index = false;
  is_key = false;
  is_editable = true;
  may_be_blank = false;
  may_be_null = false;
  choices = [];
}

-- `Q(field__gt=above)`
pub record Check : Type 0 where
  pub name : Text
  pub field : Text
  pub above : ℕ

pub record Table : Type 0 where
  pub fields : List Field
  pub ordering : List Text
  pub indexes : List (List Text)
  pub checks : List Check

pub data Operation : Type 0 where
  create_model : Model → Table → Operation
  add_field : Model → Field → Operation
  add_index : Model → List Text → Operation
  add_constraint : Model → Check → Operation

abbrev pub model_of : Operation → Model
model_of (create_model m t) = m
model_of (add_field m f) = m
model_of (add_index m fs) = m
model_of (add_constraint m c) = m

-- The table that an operation makes of the one that is there; it fails on a model that is there
-- already, or that is not.
abbrev pub change : Operation → Option Table → Option Table
change (create_model m t) none = some t
change (create_model m t) (some old) = none
change (add_field m f) none = none
change (add_field m f) (some t) = some (record t { fields = t.fields ++ f ∷ [] })
change (add_index m fs) none = none
change (add_index m fs) (some t) = some (record t { indexes = t.indexes ++ fs ∷ [] })
change (add_constraint m c) none = none
change (add_constraint m c) (some t) = some (record t { checks = t.checks ++ c ∷ [] })

-- The models that a column points to.
abbrev pub target : Kind → List Model
target (foreign_key m d n) = m ∷ []
target (one_to_one_field m d n) = m ∷ []
target _ = []

abbrev pub targets_of_fields : List Field → List Model
targets_of_fields [] = []
targets_of_fields (f ∷ fs) = target f.kind ++ targets_of_fields fs

abbrev pub targets : Operation → List Model
targets (create_model m t) = targets_of_fields t.fields
targets (add_field m f) = target f.kind
targets (add_index m fs) = []
targets (add_constraint m c) = []

abbrev pub same_model : Model → Model → Bool
same_model user_model user_model = true
same_model category_model category_model = true
same_model product_model product_model = true
same_model stock_item_model stock_item_model = true
same_model order_model order_model = true
same_model order_item_model order_item_model = true
same_model _ _ = false

abbrev pub put_table : Model → Table → (Model → Option Table) → Model → Option Table
put_table m t tables k = if same_model m k then some t else tables k

-- The database whose tables Django makes.
pub record Migrator : Type 1 where
  pub Data : Type 0
  pub nothing : Data
  pub table : Model → Data → Option Table
  pub apply : Operation → Data → Option Data

-- Each of these models has its table.
abbrev pub Present : List Model → (Model → Option Table) → Type 0
Present [] tables = true ≡ true
Present (m ∷ ms) tables = ((t : Table) × (tables m ≡ some t)) × Present ms tables

pub record IsMigrator (g : Migrator) : Type 0 where
  pub nothing_lem : (m : Model) → g.table m g.nothing ≡ none
  pub apply_lem :
      (o : Operation) (t : Table) (d : g.Data)
      → change o (g.table (model_of o) d) ≡ some t
      → Present (targets o) (λ m. g.table m d)
      → (d' : g.Data) × (g.apply o d ≡ some d')
        × ((k : Model) → g.table k d' ≡ put_table (model_of o) t (λ m. g.table m d) k)
