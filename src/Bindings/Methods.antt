-- ===== src/Bindings/Methods.antt =====
-- The classes and methods that Ruby sees: the functions Init_* of ext/ruble/bindings and containers and `Init_Registries`
-- of management/Registry.cpp, as the statements that they run. What Rice and Ruby do with a statement and with a call is a
-- parameter. `keepAlive`, the instance variable of the registry of adapters, and the classes of maps, pointers,
-- enumerations and SimpleBLE's own objects are left out.
pub mod Tables
pub mod Loading
pub mod Laws
pub mod Names
mod Runs
use ru_ble.Base.{
  ℕ, ◌+◌, Bool, true, false, ◌&&◌, ◌||◌, ◌≡◌, Option, none, some, List, [], ◌∷◌, ltb, leb, ◌==◌,
  if◌then◌else◌, Result, ok, err, runtime_error,
}
use ru_ble.Base.Texts.{Text, text_eq}

-- The classes of the objects, and their base classes, which Ruby does not have.
pub data Class : Type 0 where
  adapter peripheral service characteristic descriptor byte_array : Class
  adapter_registry peripheral_registry service_registry characteristic_registry : Class
  value_tracker rubyable : Class

unfoldable pub index : Class → ℕ
index adapter = 0
index peripheral = 1
index service = 2
index characteristic = 3
index descriptor = 4
index byte_array = 5
index adapter_registry = 6
index peripheral_registry = 7
index service_registry = 8
index characteristic_registry = 9
index value_tracker = 10
index rubyable = 11

unfoldable pub class_eq : Class → Class → Bool
unfolding index
class_eq c d = index c == index d

-- Whether an object of the first class is one of the second.
unfoldable pub derives : Class → Class → Bool
unfolding class_eq
derives characteristic value_tracker = true
derives byte_array rubyable = true
derives c d = class_eq c d

-- What a name stands for: a member function of a class with the numbers of its arguments that must and that may be
-- given, a static function, a member that is read, or a static variable that is read or set.
pub data Target : Type 0 where
  function : (owner : Class) (name : Text) (required optional : ℕ) → Target
  static_function : (owner : Class) (name : Text) (required : ℕ) → Target
  attribute : (owner : Class) (name : Text) → Target
  static_attribute : (owner : Class) (name : Text) → Target
  static_setter : (owner : Class) (name : Text) → Target

pub data Place : Type 0 where
  instance_method singleton_method : Place

unfoldable pub place_eq : Place → Place → Bool
place_eq instance_method instance_method = true
place_eq singleton_method singleton_method = true
place_eq _ _ = false

pub record Key : Type 0 where
  pub class : Class
  pub place : Place
  pub name : Text

unfoldable pub key_eq : Key → Key → Bool
unfolding class_eq place_eq
key_eq k j = class_eq k.class j.class && (place_eq k.place j.place && text_eq k.name j.name)

pub data Statement : Type 0 where
  define_class : Class → Statement
  define : Key → Target → Statement

-- Rice and Ruby: `S` is what is defined. Defining a method of a class that is not bound throws.
pub record Rice (S : Type 0) : Type 0 where
  pub bind : Class → S → S
  pub is_bound : S → Class → Bool
  pub add : Key → Target → S → S
  pub find : S → Key → Option Target
  -- Whether an object of the first class can be the receiver of a member of the second.
  pub unwraps : Class → Class → Bool

-- What a call in Ruby comes to: the name is not defined by the class, and is looked up in the classes that it inherits from;
-- the number of arguments is refused; Rice refuses the receiver, since it cannot be unwrapped as an object of the member's
-- class, by an exception whose class is left open; or the member is called.
pub data Outcome : Type 0 where
  inherited argument_error wrong_receiver : Outcome
  calls : Target → Outcome

module _ {S : Type 0} (rice : Rice S) where
  unfoldable pub execute : Statement → S → Result S
  execute (define_class c) s = ok (rice.bind c s)
  execute (define k t) s =
      if rice.is_bound s k.class then ok (rice.add k t s) else err runtime_error

  -- The statements in order, up to one that throws.
  unfoldable pub run : List Statement → S → Result S
  unfolding execute
  run [] s = ok s
  run (x ∷ xs) s = elim (execute x s) [ err e ↦ err e | ok s' ↦ run xs s' ]

  -- A member of an object of class `c`.
  unfoldable pub on_object : Class → Class → Outcome → Outcome
  on_object c owner outcome = if rice.unwraps c owner then outcome else wrong_receiver

  unfoldable pub invoke : Class → Target → ℕ → Outcome
  unfolding on_object
  invoke c (function owner name required optional) n =
      if leb required n && leb n (required + optional)
      then on_object c owner (calls (function owner name required optional))
      else argument_error
  invoke c (static_function owner name required) n =
      if n == required then calls (static_function owner name required) else argument_error
  invoke c (attribute owner name) n =
      if n == 0 then on_object c owner (calls (attribute owner name)) else argument_error
  invoke c (static_attribute owner name) n =
      if n == 0 then calls (static_attribute owner name) else argument_error
  invoke c (static_setter owner name) n =
      if n == 1 then calls (static_setter owner name) else argument_error

  -- The call of a name with `n` arguments.
  unfoldable pub call : S → Key → ℕ → Outcome
  unfolding invoke
  call s k n = elim (rice.find s k) [ none ↦ inherited | some t ↦ invoke k.class t n ]
