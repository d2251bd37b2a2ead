-- ===== src/Routes/Zones/Exchange/Entries.antt =====
-- What a file that is exported and imported by app/routes/zones.py says of each record.
use nova_dns.Prelude.{
  ℕ, zero, suc, true, false, Option, none, some, List, [], ◌∷◌, Result, ok, err, key_error,
  type_error, integrity_error, below_zero, or_raise, ◌>>=◌, if◌then◌else◌,
}
use nova_dns.Prelude.Int.{ℤ, pos}
use nova_dns.Text.{Text}
use nova_dns.Text.Number.{str_of}
use nova_dns.Wire.Rdata.{Field, num, text, null, Value, item, as_text, int_of_text}
use nova_dns.Db.{Row}
use nova_dns.Routes.Zones.Requests.{field, is_true, int_of_field, natural, number_text}

-- one of the dictionaries of "records": its plain fields, and the one under "data"
pub record Entry : Type 0 where
  pub fields : Value
  pub values : Option Value

-- what a file of JSON or YAML holds: an object with its "records", a list, or something else
pub data Payload : Type 0 where
  object : Option (List Entry) → Payload
  rows : List Entry → Payload
  scalar : Payload

-- json.loads, yaml.safe_load, csv.DictReader, and json.loads and json.dumps of a record's data
pub record Formats : Type 0 where
  pub json_loads : Text → Result Payload
  pub yaml_load : Text → Result Payload
  pub csv_rows : Text → Result (List Value)
  pub data_loads : Text → Result Value
  pub data_dumps : Value → Text

pub record Upload : Type 0 where
  pub filename : Text
  pub contents : Text

-- payload.get("records", …): AttributeError on anything but an object
unfoldable pub records_in : Payload → Result (List Entry)
records_in (object none) = ok []
records_in (object (some entries)) = ok entries
records_in (rows entries) = err type_error
records_in scalar = err type_error

unfoldable pub read_records : Result Payload → Result (List Entry)
unfolding records_in
read_records payload = payload >>= records_in

-- the value of a column of type TEXT NOT NULL, of one that may be null, and of a number; a text that
-- is no number, which SQLite would keep, is as little in the model as a number below 0
unfoldable pub text_column : Field → Result Text
unfolding number_text
text_column (text s) = ok s
text_column (num n) = ok (number_text n)
text_column null = err integrity_error

unfoldable pub optional_column : Field → Option Text
unfolding number_text
optional_column (text s) = some s
optional_column (num n) = some (number_text n)
optional_column null = none

unfoldable pub some_natural : Result ℤ → Result (Option ℕ)
unfolding natural
some_natural (err e) = err below_zero
some_natural (ok n) = natural n >>= λ m. ok (some m)

unfoldable pub number_column : Field → Result (Option ℕ)
unfolding some_natural int_of_text
number_column (num n) = some_natural (ok n)
number_column (text s) = some_natural (int_of_text s)
number_column null = ok none

-- the columns of the row that an entry is inserted as
pub record Columns : Type 0 where
  pub name : Text
  pub rtype : Text
  pub ttl : Option ℕ
  pub values : Value
  pub client_match : Option Text

unfoldable pub columns_of : Entry → Result Columns
unfolding item field text_column number_column optional_column
columns_of e = do
  name ← item "name" e.fields
  rtype ← item "rtype" e.fields
  values ← or_raise key_error e.values
  n ← text_column name
  t ← text_column rtype
  ttl ← number_column (field "ttl" e.fields)
  ok (record {
    name = n;
    rtype = t;
    ttl = ttl;
    values = values;
    client_match = optional_column (field "client_match" e.fields);
  })

-- int(row["ttl"]) if row.get("ttl") else None
unfoldable pub csv_ttl : Field → Result Field
unfolding is_true int_of_field
csv_ttl f = elim (is_true f) [ true ↦ int_of_field f >>= λ n. ok (num n) | false ↦ ok null ]

-- x or None
unfoldable pub or_null : Field → Field
unfolding is_true
or_null f = if is_true f then f else null

-- a row of a CSV file
unfoldable pub csv_entry : Formats → Value → Result Entry
unfolding item field csv_ttl or_null as_text
csv_entry p row = do
  name ← item "name" row
  rtype ← item "rtype" row
  ttl ← csv_ttl (field "ttl" row)
  cell ← item "data_json" row
  data_json ← as_text cell
  values ← p.data_loads data_json
  ok (record {
    fields =
        ("name", name)
        ∷ ("rtype", rtype)
        ∷ ("ttl", ttl)
        ∷ ("client_match", or_null (field "client_match" row))
        ∷ [];
    values = some values;
  })

unfoldable pub csv_entries : Formats → List Value → Result (List Entry)
unfolding csv_entry
csv_entries p [] = ok []
csv_entries p (row ∷ table) = do e ← csv_entry p row; rest ← csv_entries p table; ok (e ∷ rest)

-- a column of a record as a field of the file
unfoldable pub optional_number : Option ℕ → Field
optional_number none = null
optional_number (some n) = num (pos n)

unfoldable pub optional_text : Option Text → Field
optional_text none = null
optional_text (some s) = text s

-- a record in the files of JSON and YAML
unfoldable pub exported : Row → Entry
unfolding optional_number optional_text
exported r = record {
  fields =
      ("name", text r.name)
      ∷ ("rtype", text r.rtype)
      ∷ ("ttl", optional_number r.ttl)
      ∷ ("client_match", optional_text r.client_match)
      ∷ [];
  values = some r.data_json;
}

-- r["ttl"] or "", and r["client_match"] or "", as the texts that a CSV file holds
unfoldable pub number_cell : Option ℕ → Text
unfolding str_of
number_cell none = []
number_cell (some zero) = []
number_cell (some (suc n)) = str_of (suc n)

unfoldable pub text_cell : Option Text → Text
text_cell none = []
text_cell (some s) = s

-- a record in a CSV file, under the names of its first row
unfoldable pub csv_row : Formats → Row → Value
unfolding number_cell text_cell
csv_row p r =
    ("name", text r.name)
    ∷ ("rtype", text r.rtype)
    ∷ ("ttl", text (number_cell r.ttl))
    ∷ ("data_json", text (p.data_dumps r.data_json))
    ∷ ("client_match", text (text_cell r.client_match))
    ∷ []

unfoldable pub read_csv : Formats → Text → Result (List Entry)
unfolding csv_entries
read_csv p contents = p.csv_rows contents >>= csv_entries p
