-- ===== src/Value/Laws.antt =====
-- Laws of the dictionaries of `Value`.
use intelligent_workflow_app.Prelude.{
  String, ◌≡◌, refl, some, ◌==◌, string_eq, if◌then◌else◌, arith,
}
use intelligent_workflow_app.Value.{Value, Fields, no_fields, entry, get, put}

pub get-put :
    (j k : String) (v : Value) (fs : Fields)
    → get j (put k v fs) ≡ (if j == k then some v else get j fs)
unfolding get put
get-put j k v no_fields = refl
get-put j k v (entry i w fs) = ground (arith, get-put j k v fs)
