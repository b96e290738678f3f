-- ===== src/Client/Keyboard/Scan.antt =====
-- The scan codes of client/keysyms.h that `keymap` uses.
use Prim.Native.Nat.{ℕ}

abbrev pub esc : ℕ
esc = 1

abbrev pub digit_1 : ℕ
digit_1 = 2

abbrev pub digit_2 : ℕ
digit_2 = 3

abbrev pub digit_3 : ℕ
digit_3 = 4

abbrev pub digit_4 : ℕ
digit_4 = 5

abbrev pub digit_5 : ℕ
digit_5 = 6

abbrev pub digit_6 : ℕ
digit_6 = 7

abbrev pub digit_7 : ℕ
digit_7 = 8

abbrev pub digit_8 : ℕ
digit_8 = 9

abbrev pub digit_9 : ℕ
digit_9 = 10

abbrev pub digit_0 : ℕ
digit_0 = 11

abbrev pub dash : ℕ
dash = 12

abbrev pub eq : ℕ
eq = 13

abbrev pub bs : ℕ
bs = 14

abbrev pub tab : ℕ
tab = 15

abbrev pub q : ℕ
q = 16

abbrev pub w : ℕ
w = 17

abbrev pub e : ℕ
e = 18

abbrev pub r : ℕ
r = 19

abbrev pub t : ℕ
t = 20

abbrev pub y : ℕ
y = 21

abbrev pub u : ℕ
u = 22

abbrev pub i : ℕ
i = 23

abbrev pub o : ℕ
o = 24

abbrev pub p : ℕ
p = 25

abbrev pub lbrace : ℕ
lbrace = 26

abbrev pub rbrace : ℕ
rbrace = 27

abbrev pub return : ℕ
return = 28

abbrev pub a : ℕ
a = 30

abbrev pub s : ℕ
s = 31

abbrev pub d : ℕ
d = 32

abbrev pub f : ℕ
f = 33

abbrev pub g : ℕ
g = 34

abbrev pub h : ℕ
h = 35

abbrev pub j : ℕ
j = 36

abbrev pub k : ℕ
k = 37

abbrev pub l : ℕ
l = 38

abbrev pub semicolon : ℕ
semicolon = 39

abbrev pub quote : ℕ
quote = 40

abbrev pub tilde : ℕ
tilde = 41

abbrev pub bslash : ℕ
bslash = 43

abbrev pub z : ℕ
z = 44

abbrev pub x : ℕ
x = 45

abbrev pub c : ℕ
c = 46

abbrev pub v : ℕ
v = 47

abbrev pub b : ℕ
b = 48

abbrev pub n : ℕ
n = 49

abbrev pub m : ℕ
m = 50

abbrev pub comma : ℕ
comma = 51

abbrev pub period : ℕ
period = 52

abbrev pub fslash : ℕ
fslash = 53

abbrev pub mul : ℕ
mul = 55

abbrev pub space : ℕ
space = 57

abbrev pub f1 : ℕ
f1 = 0x3b

abbrev pub f2 : ℕ
f2 = 0x3c

abbrev pub f3 : ℕ
f3 = 0x3d

abbrev pub f4 : ℕ
f4 = 0x3e

abbrev pub f5 : ℕ
f5 = 0x3f

abbrev pub f6 : ℕ
f6 = 0x40

abbrev pub f7 : ℕ
f7 = 0x41

abbrev pub f8 : ℕ
f8 = 0x42

abbrev pub f9 : ℕ
f9 = 0x43

abbrev pub f10 : ℕ
f10 = 0x44

abbrev pub f11 : ℕ
f11 = 0x85

abbrev pub f12 : ℕ
f12 = 0x86

abbrev pub keypad_7 : ℕ
keypad_7 = 0x47

abbrev pub keypad_8 : ℕ
keypad_8 = 0x48

abbrev pub keypad_9 : ℕ
keypad_9 = 0x49

abbrev pub keypad_4 : ℕ
keypad_4 = 0x4b

abbrev pub keypad_5 : ℕ
keypad_5 = 0x4c

abbrev pub keypad_6 : ℕ
keypad_6 = 0x4d

abbrev pub keypad_plus : ℕ
keypad_plus = 0x4e

abbrev pub keypad_1 : ℕ
keypad_1 = 0x4f

abbrev pub keypad_2 : ℕ
keypad_2 = 0x50

abbrev pub keypad_3 : ℕ
keypad_3 = 0x51

abbrev pub keypad_0 : ℕ
keypad_0 = 0x52

abbrev pub keypad_period : ℕ
keypad_period = 0x53
